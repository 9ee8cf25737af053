-- ===== src/Window.antt =====
-- The PCI address windows that brd_amigaone.c and brd_sam460.c hand out to base address registers:
-- `setup_pci_params` and `addr_for_bar` of both files, the rounding macros of include/bboot.h and the
-- decoding of a sized register in `setup_pci_device`. The file-level variables are one record.
pub mod Grant
mod Tests
use bboot.Base.{
  ℕ, ◌+◌, ◌-◌, Bool, true, false, List, [], ◌∷◌, ltb, ◌==◌, not, if◌then◌else◌, add32, sub32,
  bit_and,
}

-- `ROUND_DOWN` and `ROUND_UP` on `uint32_t`
unfoldable pub round_down : ℕ → ℕ → ℕ
round_down n d = bit_and n (sub32 0 d)

unfoldable pub round_up : ℕ → ℕ → ℕ
round_up n d = round_down (sub32 (add32 n d) 1) d

pub record Windows : Type 0 where
  pub iobase : ℕ
  pub iolen : ℕ
  pub membase : ℕ
  pub memlen : ℕ
  pub ioavail : ℕ
  pub memavail : ℕ

-- `setup_pci_params` of brd_amigaone.c, without its call of `pci_set_addr`
abbrev pub amigaone_windows : Windows
amigaone_windows = record {
  iobase = 0xfe000000;
  iolen = 0xc00000;
  membase = 0x80000000;
  memlen = 0x7d000000;
  ioavail = 0x800000;
  memavail = 0x80000000;
}

-- `setup_pci_params` of brd_sam460.c, without its call of `pci_set_addr`
abbrev pub sam460_windows : Windows
sam460_windows = record {
  iobase = 0xd8000000;
  iolen = 0x10000;
  membase = 0x80000000;
  memlen = 0x20000000;
  ioavail = 0x100;
  memavail = 0x80000000;
}

-- `addr_for_bar` of either board: the address, and the windows as it leaves them.
unfoldable pub addr_for_bar : ℕ → ℕ → Windows → ℕ × Windows
addr_for_bar type size w =
    let io = round_up w.ioavail size in
    let mem = round_up w.memavail size in
    if size == 0
    then (0, w)
    else if type == 1
    then (if ltb w.iolen (add32 io size)
        then (0, w)
        else (io, record w { ioavail = add32 io size }))
    else if ltb (add32 w.membase w.memlen) (add32 mem size)
    then (0, w)
    else (mem, record w { memavail = add32 mem size })

-- `~(bar & ~mask) + 1` for an attribute mask
unfoldable pub bar_size : ℕ → ℕ → ℕ
bar_size bar mask = sub32 0 (bit_and bar (sub32 (sub32 0 1) mask))

-- `type` and `size` of a register that was written with all ones, in `setup_pci_device`
unfoldable pub decode_bar : ℕ → ℕ × ℕ
decode_bar bar =
    if not (bit_and bar 1 == 0)
    then (bit_and bar 3, bar_size bar 3)
    else (bit_and bar 0xf, bar_size bar 0xf)

-- One address for each register of a list of types and sizes, in the order in which the loops of
-- `setup_pci_device` reach them, with the size beside it.
unfoldable pub place_bars : List (ℕ × ℕ) → Windows → List (ℕ × ℕ) × Windows
place_bars [] w = ([], w)
place_bars ((type, size) ∷ bars) w =
    let step = addr_for_bar type size w in
    let rest = place_bars bars step.1 in ((step.0, size) ∷ rest.0, rest.1)
