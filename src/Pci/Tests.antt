-- ===== src/Pci/Tests.antt =====
-- A host bridge with one address latch, and the theorems about pci.c at it.
use bboot.Base.{ℕ, ◌+◌, ◌-◌, ◌*◌, ◌/◌, ◌%◌, ◌&&◌, ◌≡◌, refl, ap, ◌==◌, if◌then◌else◌, arith}
use mathlib.Core.Path.{ap₂}
use native.Mathlib.Nat.{add-zero}
use bboot.Pci.{
  Mmio, Ports, pci_set_addr, pci_dev, pci_bus, pci_slot, pci_func, pci_read_config8,
  pci_write_config8,
}
use bboot.Pci.Lanes.{IsBridge, pci_dev-fields, pci_read_config8-config, pci_write_config8-config}

-- The latch, and the bytes by device and register.
abbrev Bridge : Type 0
Bridge = ℕ × (ℕ → ℕ → ℕ)

abbrev ports : Ports
ports = pci_set_addr 0xfec00cf8 0xfee00cfc

abbrev here : Bridge → ℕ → ℕ
here s a = s.1 (s.0 / 256) (s.0 % 256 + (a - 0xfee00cfc))

abbrev store : ℕ → ℕ → Bridge → Bridge
store a v s =
    (s.0, λ d r. if (d == s.0 / 256) && (r == s.0 % 256 + (a - 0xfee00cfc)) then v else s.1 d r)

abbrev machine : Mmio Bridge
machine = record {
  read8 = λ a s. (here s a, s);
  read16_le = λ a s. (here s a + 256 * here s (a + 1), s);
  read32_le = λ a s.
      (here s a + 256 * here s (a + 1) + 65536 * here s (a + 2) + 16777216 * here s (a + 3), s);
  write8 = store;
  write16_le = λ a v s. store a (v % 256) (store (a + 1) (v / 256) s);
  write32_le = λ a v s. if a == 0xfec00cf8 then (v, s.1) else s;
}

sum-sub : (i : ℕ) → 0xfee00cfc + i - 0xfee00cfc ≡ i
sum-sub i = omega arith

sum-sub_next : (b i : ℕ) → b + (0xfee00cfc + i + 1 - 0xfee00cfc) ≡ b + i + 1
sum-sub_next b i = omega arith

abbrev bridge : IsBridge machine ports
bridge = record {
  latch = λ s. s.0;
  config = λ s. s.1;
  select = λ a s. refl;
  select_keeps = λ a s d r. refl;
  load8 = λ i s h. ap (λ (t : ℕ). (s.1 (s.0 / 256) (s.0 % 256 + t), s)) (sum-sub i);
  load16 = λ i s h.
      ap₂ (λ (t u : ℕ). (s.1 (s.0 / 256) (s.0 % 256 + t) + 256 * s.1 (s.0 / 256) u, s)) (sum-sub i)
        (sum-sub_next (s.0 % 256) i);
  load32 = λ s.
      ap
        (λ (t : ℕ). (
          s.1 (s.0 / 256) t
              + 256 * s.1 (s.0 / 256) (s.0 % 256 + 1)
              + 65536 * s.1 (s.0 / 256) (s.0 % 256 + 2)
              + 16777216 * s.1 (s.0 / 256) (s.0 % 256 + 3),
          s,
        ))
        (add-zero (s.0 % 256));
  store8 = λ i v s h d r.
      ap (λ (t : ℕ). if (d == s.0 / 256) && (r == s.0 % 256 + t) then v else s.1 d r) (sum-sub i);
  store16 = λ i v s h d r.
      ap₂
        (λ (t u : ℕ).
          if (d == s.0 / 256) && (r == s.0 % 256 + t)
          then v % 256
          else if (d == s.0 / 256) && (r == u)
          then v / 256
          else s.1 d r)
        (sum-sub i) (sum-sub_next (s.0 % 256) i);
}

-- Each register of each device holds its own number.
abbrev quiet : Bridge
quiet = (0, λ d r. r)

pci_dev-fields_example :
    (pci_bus (pci_dev 1 12 3) ≡ 1)
    × (pci_slot (pci_dev 1 12 3) ≡ 12)
    × (pci_func (pci_dev 1 12 3) ≡ 3)
pci_dev-fields_example = pci_dev-fields 1 12 3 (omega arith) (omega arith) (omega arith)

pci_read_config8-config_example :
    ((pci_read_config8 machine ports (pci_dev 0 7 1) 0x3d quiet).0 ≡ 0x3d)
    × ((e r : ℕ) → (pci_read_config8 machine ports (pci_dev 0 7 1) 0x3d quiet).1.1 e r ≡ r)
pci_read_config8-config_example =
    pci_read_config8-config machine ports bridge 0 7 1 0x3d quiet (omega arith) (omega arith)
      (omega arith) (omega arith)

pci_write_config8-config_example :
    (pci_write_config8 machine ports (pci_dev 0 7 1) 0x0d 0x20 quiet).1 0x800039 0x0d ≡ 0x20
unfolding pci_dev
pci_write_config8-config_example =
    pci_write_config8-config machine ports bridge 0 7 1 0x0d 0x20 quiet (omega arith) (omega arith)
      (omega arith) (omega arith) 0x800039 0x0d
