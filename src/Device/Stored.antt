-- ===== src/Device/Stored.antt =====
-- What the loop over the registers of a device stores to them.
use bboot.Base.{
  ℕ, zero, suc, ◌+◌, ◌%◌, ◌≤◌, ◌<◌, ◌≢◌, List, [], ◌∷◌, ◌≡◌, word, ◌==◌, if◌then◌else◌, bit_or,
}
use bboot.Pci.{Mmio, Ports}
use bboot.Window.{decode_bar}
use bboot.Device.{Bars, pci_bar}
use bboot.Device.Requests.{found, next}

-- A host bridge, as far as stores go: the data port goes to the register whose address the address port was given,
-- and `last` is the word that each register of 32 bits was last given. What a register reads as is left open.
pub record Remembers {ℓ} {S : Type ℓ} (io : Mmio S) (p : Ports) : Type ℓ where
  pub latch : S → ℕ
  pub last : S → ℕ → ℕ
  pub select : (a : ℕ) (s : S) → latch (io.write32_le p.pci_conf_addr a s) ≡ a
  pub select_keeps : (a : ℕ) (s : S) (r : ℕ) → last (io.write32_le p.pci_conf_addr a s) r ≡ last s r
  pub load_keeps : (s : S) (r : ℕ) → last (io.read32_le p.pci_data_addr s).1 r ≡ last s r
  pub store : (v : ℕ) (s : S) → last (io.write32_le p.pci_data_addr v s) (latch s) ≡ v
  pub store_keeps :
      (v : ℕ) (s : S) (r : ℕ) → r ≢ latch s → last (io.write32_le p.pci_data_addr v s) r ≡ last s r
  pub store16_keeps :
      (i v : ℕ) (s : S) (r : ℕ)
      → i < 4
      → r ≢ latch s
      → last (io.write16_le (p.pci_data_addr + i) v s) r ≡ last s r
  pub store8_keeps :
      (i v : ℕ) (s : S) (r : ℕ)
      → i < 4
      → r ≢ latch s
      → last (io.write8 (p.pci_data_addr + i) v s) r ≡ last s r

-- A device number, as `PCI_DEV` makes it.
pub record IsDevice (devfn : ℕ) : Type 0 where
  pub low : devfn % 256 ≡ 0
  pub high : 2147483648 ≤ devfn
  pub small : devfn < word

-- What a register has been given for an address: the address with the type, or, where there was none, still
-- the ones that it was sized with.
unfoldable pub given : ℕ → ℕ → ℕ
given base type = if base == 0 then 0xffffffff else bit_or base type

-- That the registers, each an index, a type and a size, were given the addresses of a list of addresses and sizes, and
-- have these sizes.
abbrev pub Given : (ℕ → ℕ) → List (ℕ × ℕ × ℕ) → List (ℕ × ℕ) → Type 0
Given last [] [] = Unit
Given last [] (g ∷ gs) = ⊥
Given last (r ∷ rs) [] = ⊥
Given last ((i, type, size) ∷ rs) ((base, size') ∷ gs) =
    (last i ≡ given base type) × (size ≡ size') × Given last rs gs

module _ {ℓ} {S : Type ℓ} (io : Mmio S) (p : Ports) (h : Remembers io p) (devfn latency_timer : ℕ)
    (dev : IsDevice devfn) where
  -- What the address register with an index was last given.
  abbrev pub last_bar : S → ℕ → ℕ
  last_bar s i = h.last s (devfn + pci_bar i)

  -- The registers that the rounds find: the index, type and size of each.
  unfoldable pub registers : ℕ → Bars S → List (ℕ × ℕ × ℕ)
  registers zero k = []
  registers (suc n) k =
      let rest = registers n (next io p devfn latency_timer k) in
      if found io p devfn latency_timer k == 0
      then rest
      else (
        k.index,
        (decode_bar (found io p devfn latency_timer k)).0,
        (decode_bar (found io p devfn latency_timer k)).1,
      )
        ∷ rest
