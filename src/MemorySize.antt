-- ===== src/MemorySize.antt =====
-- How brd_amigaone.c finds the size of memory: `find_memory_size` writes a pattern and reads it back. The
-- memory controller is a parameter, for what it answers at an address without memory is not in the source.
pub mod Banks
mod Tests
use mathlib.Core.Option
use bboot.Base.{
  ℕ, zero, suc, ◌+◌, ◌-◌, ◌*◌, ◌/◌, ◌≤◌, Bool, true, false, Option, none, some, ◌==◌, leb, ltb,
  if◌then◌else◌, add32, sub32,
}

-- Volatile loads and stores of 32 bits.
pub record Bus {ℓ} (S : Type ℓ) : Type ℓ where
  pub load : ℕ → S → ℕ
  pub store : ℕ → ℕ → S → S

abbrev pub pattern : ℕ
pattern = 0xaaaaaaaa

module _ {ℓ} {S : Type ℓ} (bus : Bus S) where
  -- The first loop, over the rounds left: `i` where it stops.
  unfoldable pub halve : ℕ → ℕ → ℕ → S → ℕ × S
  halve zero start i s = (i, s)
  halve (suc rounds) start i s =
      let p = sub32 (add32 start i) 4 in
      let s1 = bus.store p pattern s in
      let rest = halve rounds start (i / 2) s1 in
      if leb i 4 then (i, s) else if bus.load p s1 == pattern then (i, bus.store p 0 s1) else rest

  -- What follows the loop, on the `i` it found; `next` is the call of the function itself.
  unfoldable pub look_above : (ℕ → S → Option (ℕ × S)) → ℕ → ℕ × S → Option (ℕ × S)
  look_above next start (i, s) =
      let p = add32 (add32 start i) (32 * 1024) in
      let s1 = bus.store p pattern s in
      let more = next i (bus.store p 0 s1) in
      if ltb p 0x80000000
      then (if bus.load p s1 == pattern
          then Option.map (λ (r : ℕ × S). (add32 i r.0, r.1)) more
          else some (i, s1))
      else some (i, s)

  -- The recursion takes fuel, `none` where it runs out; 32 halvings end any loop.
  unfoldable pub find_memory_size : ℕ → ℕ → S → Option (ℕ × S)
  find_memory_size zero start s = none
  find_memory_size (suc fuel) start s =
      look_above (find_memory_size fuel) start
        (halve 32 start (if start == 0 then 0x80000000 else start) s)
