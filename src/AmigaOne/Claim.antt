-- ===== src/AmigaOne/Claim.antt =====
-- The claims of memory that brd_amigaone.c grants.
use bboot.Base.{ℕ, ◌+◌, ◌≤◌, ◌<◌, ◌≢◌, ◌⊎◌, ◌≡◌, ◌↔◌, word, arith}
use bboot.Kick.{Board}
use bboot.Kick.Supply.{Grants}
use bboot.AmigaOne.{no_claim, amigaone_exec_addr}

-- `brd` as `amigaone_init` sets it, for the loads of boot_aos.c.
abbrev pub amigaone_board {ℓ} : {S : Type ℓ} → ℕ → Board S
amigaone_board memsize = record {
  claim = λ addr size s. (no_claim memsize addr size, s);
  exec_addr = amigaone_exec_addr;
}

-- The board grants what ends below the end of memory.
pub no_claim-Grants {ℓ} :
    {S : Type ℓ} (memsize top : ℕ)
    → top < memsize
    → memsize ≤ word
    → Grants (amigaone_board {S = S} memsize) top
unfolding no_claim
no_claim-Grants memsize top below fits a n s nonzero inside = ground arith

-- A claim at an address other than 0 is granted where the memory ends below the end of what the board
-- has, and also where it wraps round the end of the address space and ends there; it is refused otherwise.
pub no_claim-wraps :
    (memsize addr size : ℕ)
    → memsize ≤ word
    → addr < word
    → size < word
    → addr ≢ 0
    → (no_claim memsize addr size ≡ addr)
      ↔ ((addr + size < memsize) ⊎ (word ≤ addr + size) × (addr + size < word + memsize))
unfolding no_claim
no_claim-wraps memsize addr size fits low small nonzero = ground arith
