-- ===== src/Pegasos/Bars.antt =====
-- What the last loop of `check_one_bus` in brd_pegasos2.c leaves of the addresses.
mod Tests
use bboot.Base.{
  ℕ, ◌+◌, ◌≤◌, ◌<◌, ◌≢◌, ◌⊎◌, not, ◌||◌, ◌&&◌, ◌==◌, ◌≡◌, if◌then◌else◌, word, bit_and,
}
use bboot.Pci.{Mmio}
use bboot.Prom.{Client}
use bboot.Pegasos.{Vars, Ram, cell, set_cell, phys_hi_type}
use bboot.Pegasos.Nodes.{Node, answers, narrow, fix_rom, bar_value}

-- A first cell that is not of a 64 bit register and not of the offset 0x28.
abbrev pub IsFixed : ℕ → Type 0
IsFixed hi = (phys_hi_type hi ≢ 3) × (bit_and hi 0xff ≢ 0x28)

abbrev pub fixed : ℕ → ℕ
fixed hi = fix_rom (narrow hi)

-- What memory and the registers of the host bridge are to each other: a load gives what was stored, and no
-- access to the registers changes memory.
pub record IsMemory {ℓ} {S : Type ℓ} (io : Mmio S) (ram : Ram S) : Type ℓ where
  pub stored : (a v : ℕ) (s : S) → v < word → ram.load a (ram.store a v s) ≡ v
  pub apart :
      (a b v : ℕ) (s : S) → (a + 4 ≤ b) ⊎ (b + 4 ≤ a) → ram.load b (ram.store a v s) ≡ ram.load b s
  pub fits : (a : ℕ) (s : S) → ram.load a s < word
  pub after_read : (a b : ℕ) (s : S) → ram.load b (io.read32_le a s).1 ≡ ram.load b s
  pub after_write : (a b v : ℕ) (s : S) → ram.load b (io.write32_le a v s) ≡ ram.load b s

module _ {ℓ} {S : Type ℓ} (io : Mmio S) (ram : Ram S) (law : IsMemory io ram) where
  module _ (c : Client S) (v : Vars) (d : Node) where
    abbrev first : ℕ → S → ℕ
    first i s = fixed (cell ram i s)

    -- The memory behind the store of a round.
    abbrev corrected : ℕ → S → S
    corrected i s = if first i s == cell ram i s then s else set_cell ram i (first i s) s
