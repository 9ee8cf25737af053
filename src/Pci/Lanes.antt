-- ===== src/Pci/Lanes.antt =====
-- The register that each access of pci.c reaches, behind a host bridge with an address and a data
-- port.
use bboot.Base.{
  ℕ, zero, suc, ◌+◌, ◌-◌, ◌*◌, ◌/◌, ◌%◌, ◌^◌, ◌≤◌, ◌<◌, ◌&&◌, ◌≡◌, sym, ap, ◌∙◌, ◌==◌,
  if◌then◌else◌, arith, bit_and, bit_or, word,
}
use bboot.Base.Bits.{
  bit_or-fields, bit_or-halves, bit_or-zero, bit_and-low, bit_and-high, bit_and-bit,
}
use mathlib.Core.Path.{ap₂}
use native.Mathlib.Nat.{pow-suc}
use bboot.Pci.{
  Mmio, Ports, pci_dev, pci_bus, pci_slot, pci_func, conf_value, pci_set_conf_addr,
  pci_read_config8, pci_read_config16, pci_write_config8, pci_write_config16,
}

pci_dev-sum :
    (bus slot fn : ℕ)
    → bus < 256
    → slot < 32
    → fn < 8
    → pci_dev bus slot fn ≡ 2147483648 + bus * 65536 + slot * 2048 + fn * 256
unfolding pci_dev
pci_dev-sum bus slot fn b s f =
    let one : 2147483648 + bus * 65536 ≡ (32768 + bus) * 65536 = omega arith in
    let two : 2147483648 + bus * 65536 + slot * 2048 ≡ (1048576 + bus * 32 + slot) * 2048 =
      omega arith in
    ap (λ (t : ℕ). bit_or (bit_or t (slot * 2048)) (fn * 256))
      (bit_or-fields 31 1 (bus * 65536) (omega (arith, b)) ∙ one)
    ∙ ap (λ (t : ℕ). bit_or t (fn * 256))
        (bit_or-fields 16 (32768 + bus) (slot * 2048) (omega (arith, s)))
    ∙ ap (λ (t : ℕ). bit_or (t + slot * 2048) (fn * 256)) (sym one)
    ∙ ap (λ (t : ℕ). bit_or t (fn * 256)) two
    ∙ bit_or-fields 11 (1048576 + bus * 32 + slot) (fn * 256) (omega (arith, f))
    ∙ ap (λ (t : ℕ). t + fn * 256) (sym two)

-- `PCI_BUS`, `PCI_SLOT` and `PCI_FUNC` give back what `PCI_DEV` was given, a bus below 256, a slot below
-- 32 and a function below 8.
pub pci_dev-fields :
    (bus slot fn : ℕ)
    → bus < 256
    → slot < 32
    → fn < 8
    → (pci_bus (pci_dev bus slot fn) ≡ bus)
      × (pci_slot (pci_dev bus slot fn) ≡ slot)
      × (pci_func (pci_dev bus slot fn) ≡ fn)
unfolding pci_bus pci_slot pci_func
pci_dev-fields bus slot fn b s f = ground (
  arith,
  pci_dev-sum bus slot fn b s f,
  bit_and-low 8 (pci_dev bus slot fn / 2 ^ 16),
  bit_and-low 5 (pci_dev bus slot fn / 2 ^ 11),
  bit_and-low 3 (pci_dev bus slot fn / 2 ^ 8),
)

-- A bit that is set already.
bit_or-top : (k r : ℕ) → r < 2 ^ k → bit_or (2 ^ k + r) (2 ^ k) ≡ 2 ^ k + r
bit_or-top zero r h = ground (arith, bit_or-halves (1 + r) 1, bit_or-zero 0)
bit_or-top (suc k) r h =
    ground (arith, pow-suc 2 k, bit_or-halves (2 ^ suc k + r) (2 ^ suc k), bit_or-top k (r / 2))

-- The address register gets the device with the number of the register's aligned group of four.
pub conf_value-sum :
    (d reg : ℕ)
    → d % 256 ≡ 0
    → 2147483648 ≤ d
    → d < word
    → reg < 256
    → conf_value d reg ≡ d + reg / 4 * 4
unfolding conf_value
conf_value-sum d reg a b c r =
    let whole : d ≡ d / 256 * 256 = omega (arith, a) in
    let set : d / 256 * 256 + reg / 4 * 4 ≡ 2147483648 + (d - 2147483648 + reg / 4 * 4) =
      omega (arith, a, b) in
    let group : bit_and reg 4294967292 ≡ reg / 4 * 4 = bit_and-high 2 30 reg (omega (arith, r)) in
    ap (λ (t : ℕ). bit_or (bit_or d t) 2147483648) group
    ∙ ap (λ (t : ℕ). bit_or (bit_or t (reg / 4 * 4)) 2147483648) whole
    ∙ ap (λ (t : ℕ). bit_or t 2147483648)
        (bit_or-fields 8 (d / 256) (reg / 4 * 4) (omega (arith, r)) ∙ set)
    ∙ bit_or-top 31 (d - 2147483648 + reg / 4 * 4) (omega (arith, a, c, r))
    ∙ omega (arith, b)

-- A host bridge: what the address port was last given selects a device, by the bits from 8 on, and
-- the first of four registers; the data port is a window on those four. `config` is the byte of
-- configuration space at a device and a register.
pub record IsBridge {ℓ} {S : Type ℓ} (io : Mmio S) (p : Ports) : Type ℓ where
  pub latch : S → ℕ
  pub config : S → ℕ → ℕ → ℕ
  pub select : (a : ℕ) (s : S) → latch (io.write32_le p.pci_conf_addr a s) ≡ a
  pub select_keeps :
      (a : ℕ) (s : S) (d r : ℕ) → config (io.write32_le p.pci_conf_addr a s) d r ≡ config s d r
  pub load8 :
      (i : ℕ) (s : S)
      → i < 4
      → io.read8 (p.pci_data_addr + i) s ≡ (config s (latch s / 256) (latch s % 256 + i), s)
  pub load16 :
      (i : ℕ) (s : S)
      → i < 3
      → io.read16_le (p.pci_data_addr + i) s ≡ (
        config s (latch s / 256) (latch s % 256 + i)
            + 256 * config s (latch s / 256) (latch s % 256 + i + 1),
        s,
      )
  pub load32 :
      (s : S)
      → io.read32_le p.pci_data_addr s ≡ (
        config s (latch s / 256) (latch s % 256)
            + 256 * config s (latch s / 256) (latch s % 256 + 1)
            + 65536 * config s (latch s / 256) (latch s % 256 + 2)
            + 16777216 * config s (latch s / 256) (latch s % 256 + 3),
        s,
      )
  pub store8 :
      (i v : ℕ) (s : S)
      → i < 4
      → (d r : ℕ)
      → config (io.write8 (p.pci_data_addr + i) v s) d r
        ≡ (if (d == latch s / 256) && (r == latch s % 256 + i) then v else config s d r)
  pub store16 :
      (i v : ℕ) (s : S)
      → i < 3
      → (d r : ℕ)
      → config (io.write16_le (p.pci_data_addr + i) v s) d r ≡ (
          if (d == latch s / 256) && (r == latch s % 256 + i)
          then v % 256
          else if (d == latch s / 256) && (r == latch s % 256 + i + 1)
          then v / 256
          else config s d r)

module _ {ℓ} {S : Type ℓ} (io : Mmio S) (p : Ports) (b : IsBridge io p) where
  -- The state after `pci_set_conf_addr` at a register of a device.
  record IsSelected (d reg : ℕ) (s t : S) : Type ℓ where
    device : b.latch t / 256 ≡ d / 256
    group : b.latch t % 256 ≡ reg / 4 * 4
    kept : (e r : ℕ) → b.config t e r ≡ b.config s e r

  pci_set_conf_addr-IsSelected :
      (bus slot fn reg : ℕ) (s : S)
      → bus < 256
      → slot < 32
      → fn < 8
      → reg < 256
      → IsSelected (pci_dev bus slot fn) reg s (pci_set_conf_addr io p (pci_dev bus slot fn) reg s)
  unfolding pci_set_conf_addr
  pci_set_conf_addr-IsSelected bus slot fn reg s h1 h2 h3 h4 =
      let d = pci_dev bus slot fn in
      let sum = pci_dev-sum bus slot fn h1 h2 h3 in
      let value : conf_value d reg ≡ d + reg / 4 * 4 =
        conf_value-sum d reg (omega (arith, sum)) (omega (arith, sum)) (omega (arith, sum)) h4 in
      let at : b.latch (io.write32_le p.pci_conf_addr (conf_value d reg) s) ≡ d + reg / 4 * 4 =
        b.select (conf_value d reg) s ∙ value in
      record {
        device = ap (λ (t : ℕ). t / 256) at ∙ omega (arith, sum, h4);
        group = ap (λ (t : ℕ). t % 256) at ∙ omega (arith, sum, h4);
        kept = b.select_keeps (conf_value d reg) s;
      }

  -- A byte is read from the register that is asked for, at any of the 256, and no register changes.
  -- The bridge forwards its data port to the four registers that its address port selects.
  pub pci_read_config8-config :
      (bus slot fn reg : ℕ) (s : S)
      → bus < 256
      → slot < 32
      → fn < 8
      → reg < 256
      → ((pci_read_config8 io p (pci_dev bus slot fn) reg s).0
          ≡ b.config s (pci_dev bus slot fn / 256) reg)
        × ((e r : ℕ)
            → b.config (pci_read_config8 io p (pci_dev bus slot fn) reg s).1 e r ≡ b.config s e r)
  unfolding pci_read_config8
  pci_read_config8-config bus slot fn reg s h1 h2 h3 h4 =
      let t = pci_set_conf_addr io p (pci_dev bus slot fn) reg s in
      let i = pci_set_conf_addr-IsSelected bus slot fn reg s h1 h2 h3 h4 in
      let lane : bit_and reg 3 < 4 = omega (arith, bit_and-low 2 reg) in
      let place : b.latch t % 256 + bit_and reg 3 ≡ reg =
        omega (arith, i.group, bit_and-low 2 reg) in
      let load = b.load8 (bit_and reg 3) t lane in
      (
        ap (λ (v : ℕ × S). v.0) load
            ∙ ap₂ (b.config t) i.device place
            ∙ i.kept (pci_dev bus slot fn / 256) reg,
        λ e r. ap (λ (v : ℕ × S). b.config v.1 e r) load ∙ i.kept e r,
      )

  -- Two bytes, lowest first, are read from the even register that is asked for and the one after it,
  -- and no register changes, behind such a bridge.
  pub pci_read_config16-config :
      (bus slot fn reg : ℕ) (s : S)
      → bus < 256
      → slot < 32
      → fn < 8
      → reg < 256
      → reg % 2 ≡ 0
      → ((pci_read_config16 io p (pci_dev bus slot fn) reg s).0
          ≡ b.config s (pci_dev bus slot fn / 256) reg
            + 256 * b.config s (pci_dev bus slot fn / 256) (reg + 1))
        × ((e r : ℕ)
            → b.config (pci_read_config16 io p (pci_dev bus slot fn) reg s).1 e r ≡ b.config s e r)
  unfolding pci_read_config16
  pci_read_config16-config bus slot fn reg s h1 h2 h3 h4 h5 =
      let t = pci_set_conf_addr io p (pci_dev bus slot fn) reg s in
      let d = pci_dev bus slot fn / 256 in
      let i = pci_set_conf_addr-IsSelected bus slot fn reg s h1 h2 h3 h4 in
      let lane : bit_and reg 2 < 3 = omega (arith, bit_and-bit 1 reg) in
      let place : b.latch t % 256 + bit_and reg 2 ≡ reg =
        omega (arith, i.group, bit_and-bit 1 reg, h5) in
      let load = b.load16 (bit_and reg 2) t lane in
      (
        ap (λ (v : ℕ × S). v.0) load
            ∙ ap₂ (λ (e r : ℕ). b.config t e r + 256 * b.config t e (r + 1)) i.device place
            ∙ ap₂ (λ (x y : ℕ). x + 256 * y) (i.kept d reg) (i.kept d (reg + 1)),
        λ e r. ap (λ (v : ℕ × S). b.config v.1 e r) load ∙ i.kept e r,
      )

  -- A byte is written to the register that is asked for, at any of the 256, and every other register of
  -- every device keeps its byte, behind such a bridge.
  pub pci_write_config8-config :
      (bus slot fn reg val : ℕ) (s : S)
      → bus < 256
      → slot < 32
      → fn < 8
      → reg < 256
      → (e r : ℕ)
      → b.config (pci_write_config8 io p (pci_dev bus slot fn) reg val s) e r
        ≡ (if (e == pci_dev bus slot fn / 256) && (r == reg) then val else b.config s e r)
  unfolding pci_write_config8
  pci_write_config8-config bus slot fn reg val s h1 h2 h3 h4 e r =
      let t = pci_set_conf_addr io p (pci_dev bus slot fn) reg s in
      let i = pci_set_conf_addr-IsSelected bus slot fn reg s h1 h2 h3 h4 in
      let place : b.latch t % 256 + bit_and reg 3 ≡ reg =
        omega (arith, i.group, bit_and-low 2 reg) in
      b.store8 (bit_and reg 3) val t (omega (arith, bit_and-low 2 reg)) e r
      ∙ ap₂ (λ (x y : ℕ). if (e == x) && (r == y) then val else b.config t e r) i.device place
      ∙ ap (λ (x : ℕ). if (e == pci_dev bus slot fn / 256) && (r == reg) then val else x)
          (i.kept e r)

  -- Two bytes are written, lowest first, to the even register that is asked for and the one after it,
  -- and every other register of every device keeps its byte, behind such a bridge.
  pub pci_write_config16-config :
      (bus slot fn reg val : ℕ) (s : S)
      → bus < 256
      → slot < 32
      → fn < 8
      → reg < 256
      → reg % 2 ≡ 0
      → (e r : ℕ)
      → b.config (pci_write_config16 io p (pci_dev bus slot fn) reg val s) e r ≡ (
          if (e == pci_dev bus slot fn / 256) && (r == reg)
          then val % 256
          else if (e == pci_dev bus slot fn / 256) && (r == reg + 1)
          then val / 256
          else b.config s e r)
  unfolding pci_write_config16
  pci_write_config16-config bus slot fn reg val s h1 h2 h3 h4 h5 e r =
      let t = pci_set_conf_addr io p (pci_dev bus slot fn) reg s in
      let i = pci_set_conf_addr-IsSelected bus slot fn reg s h1 h2 h3 h4 in
      let place : b.latch t % 256 + bit_and reg 2 ≡ reg =
        omega (arith, i.group, bit_and-bit 1 reg, h5) in
      let wrote = λ (x y z : ℕ).
        if (e == x) && (r == y)
        then val % 256
        else if (e == x) && (r == y + 1)
        then val / 256
        else z in
      b.store16 (bit_and reg 2) val t (omega (arith, bit_and-bit 1 reg)) e r
      ∙ ap₂ (λ (x y : ℕ). wrote x y (b.config t e r)) i.device place
      ∙ ap (wrote (pci_dev bus slot fn / 256) reg) (i.kept e r)
