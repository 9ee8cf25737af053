-- ===== src/AmigaOne/Tests.antt =====
-- A bus with one network card, and the theorems at it and at pins.
use bboot.Base.{
  ℕ, ◌≡◌, ◌+◌, ◌≤◌, ◌<◌, ◌⊎◌, ◌↔◌, word, refl, arith, ◌%◌, ◌==◌, if◌then◌else◌, true, bit_and,
}
use bboot.Pci.{Mmio}
use bboot.AmigaOne.Claim.{no_claim-wraps}
use bboot.AmigaOne.{no_claim, map_irq, reported}

-- A bridge with the card in the slot 4: the state is the configuration address. Its first register is
-- for 256 bytes of memory; what is written is not kept.
abbrev answer : ℕ → ℕ
answer addr =
    if addr == 0x80002000
    then 0x813910ec
    else if addr == 0x80002010
    then 0xffffff00
    else if bit_and addr 0xff00 == 0x2000
    then 0
    else 0xffffffff

abbrev bridge : Mmio ℕ
bridge = record {
  read8 = λ a s. (answer s % 256, s);
  read16_le = λ a s. (answer s % 65536, s);
  read32_le = λ a s. (answer s, s);
  write8 = λ a v s. s;
  write16_le = λ a v s. s;
  write32_le = λ a v s. if a == 0xfec00cf8 then v else s;
}

pin_a : map_irq 4 1 0xff ≡ 9
unfolding map_irq
pin_a = refl

wraps_round : map_irq 6 1 0xff ≡ map_irq 3 1 0xff
unfolding map_irq
wraps_round = refl

usb_keeps_its_own : map_irq 7 4 5 ≡ 5
unfolding map_irq
usb_keeps_its_own = refl

-- With TARGET_G5, 1 GiB is reported and not the 360 MiB that the comment names.
one_gib : reported true 0x80000000 ≡ 0x40000000
unfolding reported
one_gib = refl

-- With 256 MiB, a claim of 272 MiB at 3.75 GiB wraps, and is granted.
no_claim-wraps_example : (no_claim 0x10000000 0xf0000000 0x11000000 ≡ 0xf0000000) ↔ (
    (0xf0000000 + 0x11000000 < 0x10000000)
    ⊎ (word ≤ 0xf0000000 + 0x11000000) × (0xf0000000 + 0x11000000 < word + 0x10000000))
no_claim-wraps_example =
    no_claim-wraps 0x10000000 0xf0000000 0x11000000 (omega arith) (omega arith) (omega arith)
      (omega arith)
