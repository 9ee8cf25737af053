-- ===== src/Window/Tests.antt =====
-- Runs of the window code, and its theorems at the windows of the two boards.
use bboot.Base.{◌+◌, [], ◌∷◌, ◌≡◌, refl, arith, word}
use bboot.Window.{
  Windows, amigaone_windows, round_down, round_up, addr_for_bar, bar_size, decode_bar, place_bars,
}
use bboot.Window.Grant.{IsSize, addr_for_bar_wraps}

-- A register that decodes 64 KiB of prefetchable memory, and one of 32 ports.
decode_memory : decode_bar 0xffff0008 ≡ (8, 0x10000)
unfolding decode_bar bar_size
decode_memory = refl

decode_io : decode_bar 0xffffffe1 ≡ (1, 32)
unfolding decode_bar bar_size
decode_io = refl

place_some :
    (place_bars ((8, 0x10000) ∷ (1, 32) ∷ (0, 0x1000000) ∷ []) amigaone_windows).0
    ≡ ((0x80000000, 0x10000) ∷ (0x800000, 32) ∷ (0x81000000, 0x1000000) ∷ [])
unfolding place_bars addr_for_bar round_up round_down
place_some = refl

abbrev page : IsSize 0x1000
page = record { log = 12; rest = 20; power = refl; cofactor = refl; small = omega arith }

abbrev large : IsSize 0x1000000
large = record { log = 24; rest = 8; power = refl; cofactor = refl; small = omega arith }

abbrev gigabyte : IsSize 0x40000000
gigabyte = record { log = 30; rest = 2; power = refl; cofactor = refl; small = omega arith }

-- After a first page, a register of 1 GiB.
abbrev taken_page : Windows
taken_page = record amigaone_windows { memavail = 0x80001000 }

addr_for_bar_wraps_example :
    ((addr_for_bar 8 0x40000000 taken_page).0 + 0x40000000 ≡ word)
    × ((addr_for_bar 8 0x40000000 taken_page).1 ≡ record taken_page { memavail = 0 })
unfolding round_up round_down
addr_for_bar_wraps_example =
    addr_for_bar_wraps 8 0x40000000 taken_page (omega arith) gigabyte (omega arith) refl
