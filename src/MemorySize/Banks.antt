-- ===== src/MemorySize/Banks.antt =====
-- Which memory `find_memory_size` measures.
use mathlib.Core.Option
use bboot.Base.{
  ℕ, zero, suc, ◌+◌, ◌-◌, ◌*◌, ◌/◌, ◌^◌, ◌≤◌, ◌<◌, ◌≢◌, true, false, ◌≡◌, refl, sym, ap, ◌∙◌,
  Option, none, some, ◌==◌, ==_ne, leb, ltb, arith, word, add32, sub32, Bool-cases, inl, inr,
}
use native.Mathlib.Nat.{pow-suc, one-le-pow, mul-le-mul_right, zero-add}
use mathlib.Core.Path.{subst}
use bboot.MemorySize.{Bus, pattern, halve, look_above, find_memory_size}

-- An address where what was stored is read back.
abbrev pub HasMemory {ℓ} : {S : Type ℓ} → Bus S → ℕ → Type ℓ
HasMemory {S = S} bus p = (v : ℕ) (s : S) → bus.load p (bus.store p v s) ≡ v

-- One where the pattern of the probe is not read back: what a load finds may be a constant, or what it was before.
abbrev pub NoMemory {ℓ} : {S : Type ℓ} → Bus S → ℕ → Type ℓ
NoMemory {S = S} bus p = (s : S) → bus.load p (bus.store p pattern s) ≢ pattern

module _ {ℓ} {S : Type ℓ} (bus : Bus S) where
  halve-present :
      (rounds start i : ℕ) (s : S)
      → 4 < i
      → 4 ≤ start + i
      → start + i < word
      → HasMemory bus (start + i - 4)
      → (halve bus (suc rounds) start i s).0 ≡ i
  unfolding halve
  halve-present rounds start i s h1 h2 h3 ram =
      let at : sub32 (add32 start i) 4 ≡ start + i - 4 = omega arith in
      let big : leb i 4 ≡ false = ground arith in
      let reads : (bus.load (sub32 (add32 start i) 4)
              (bus.store (sub32 (add32 start i) 4) pattern s)
            == pattern)
          ≡ true =
        rw (at, ram pattern s) in
      rw (big, reads)

  halve-absent :
      (rounds i : ℕ) (s : S)
      → 4 < i
      → i < word
      → NoMemory bus (i - 4)
      → halve bus (suc rounds) 0 i s ≡ halve bus rounds 0 (i / 2) (bus.store (i - 4) pattern s)
  unfolding halve
  halve-absent rounds i s h1 h2 absent =
      let at : sub32 (add32 0 i) 4 ≡ i - 4 = omega arith in
      let big : leb i 4 ≡ false = ground arith in
      let differs : (bus.load (i - 4) (bus.store (i - 4) pattern s) == pattern) ≡ false =
        ==_ne (bus.load (i - 4) (bus.store (i - 4) pattern s)) pattern (absent s) in
      rw (big, at, differs)

  halve-bank :
      (size d rounds i : ℕ) (s : S)
      → 4 < size
      → d < rounds
      → i ≡ 2 ^ d * size
      → i < word
      → HasMemory bus (size - 4)
      → ((p : ℕ) → size ≤ p → NoMemory bus p)
      → (halve bus rounds 0 i s).0 ≡ size
  halve-bank size d zero i s h l e b ram above = absurd (omega arith)
  halve-bank size zero (suc rounds) i s h l e b ram above =
      let same : i ≡ size = omega (arith, e) in
      ap (λ (t : ℕ). (halve bus (suc rounds) 0 t s).0) same
      ∙ halve-present rounds 0 size s h (omega arith) (omega arith)
          (subst (λ (t : ℕ). HasMemory bus (t - 4)) (sym (zero-add size)) ram)
  halve-bank size (suc d) (suc rounds) i s h l e b ram above =
      let twice : i ≡ 2 * (2 ^ d * size) =
        e ∙ ap (λ (t : ℕ). t * size) (pow-suc 2 d) ∙ omega arith in
      let some_power : 1 ≤ 2 ^ d = one-le-pow d 2 (omega arith) in
      let bound : size ≤ 2 ^ d * size = ground (arith, mul-le-mul_right size some_power) in
      ap (λ (r : ℕ × S). r.0)
        (halve-absent rounds i s (omega arith) b (above (i - 4) (omega arith)))
      ∙ halve-bank size d rounds (i / 2) (bus.store (i - 4) pattern s) h (omega arith)
          (omega (arith, twice)) (omega arith) ram above

  look_above-absent :
      (next : ℕ → S → Option (ℕ × S)) (i : ℕ) (s : S)
      → i + 32768 < word
      → NoMemory bus (i + 32768)
      → Option.map (λ (r : ℕ × S). r.0) (look_above bus next 0 (i, s)) ≡ some i
  unfolding look_above
  look_above-absent next i s b absent =
      let at : add32 (add32 0 i) 32768 ≡ i + 32768 = omega arith in
      let differs : (bus.load (i + 32768) (bus.store (i + 32768) pattern s) == pattern) ≡ false =
        ==_ne (bus.load (i + 32768) (bus.store (i + 32768) pattern s)) pattern (absent s) in
      elim (Bool-cases (ltb (i + 32768) 0x80000000)) [
        | inl e ↦ rw (at, e, differs)
        | inr e ↦ rw (at, e)
      ]

  look_above-none :
      (next : ℕ → S → Option (ℕ × S)) (start i : ℕ) (s : S)
      → start + i + 32768 < 0x80000000
      → HasMemory bus (start + i + 32768)
      → ((t : S) → next i t ≡ none)
      → look_above bus next start (i, s) ≡ none
  unfolding look_above
  look_above-none next start i s b ram endless =
      let p = start + i + 32768 in
      let at : add32 (add32 start i) 32768 ≡ p = omega arith in
      let below : ltb p 0x80000000 ≡ true = ground arith in
      let reads : (bus.load p (bus.store p pattern s) == pattern) ≡ true = rw (ram pattern s) in
      rw (at, below, reads, endless (bus.store p 0 (bus.store p pattern s)))

-- One bank of memory from 0 on, of a power of two of bytes up to 2 GiB and more than four of them, is measured
-- exactly, where its last word reads back what is stored, and no address above it the pattern.
pub find_memory_size-bank {ℓ} :
    {S : Type ℓ} (bus : Bus S) (size d fuel : ℕ) (s : S)
    → 4 < size
    → d < 32
    → 0x80000000 ≡ 2 ^ d * size
    → HasMemory bus (size - 4)
    → ((p : ℕ) → size ≤ p → NoMemory bus p)
    → Option.map (λ (r : ℕ × S). r.0) (find_memory_size bus (suc fuel) 0 s) ≡ some size
unfolding find_memory_size
find_memory_size-bank bus size d fuel s h l e ram above =
    let some_power : 1 ≤ 2 ^ d = one-le-pow d 2 (omega arith) in
    let small : size ≤ 0x80000000 = ground (arith, mul-le-mul_right size some_power, e) in
    let found = halve bus 32 0 0x80000000 s in
    let is : found.0 ≡ size = halve-bank bus size d 32 0x80000000 s h l e (omega arith) ram above in
    look_above-absent bus (find_memory_size bus fuel) found.0 found.1 (omega (arith, is, small))
      (above (found.0 + 32768) (omega (arith, is)))
    ∙ ap some is

-- From a start with memory up to twice the start, and 32 KiB above that too, the search calls itself
-- with the same start again and again: no fuel is enough.
pub find_memory_size_endless {ℓ} :
    {S : Type ℓ} (bus : Bus S) (start fuel : ℕ) (s : S)
    → 4 < start
    → 2 * start + 32768 < 0x80000000
    → HasMemory bus (2 * start - 4)
    → HasMemory bus (2 * start + 32768)
    → find_memory_size bus fuel start s ≡ none
unfolding find_memory_size
find_memory_size_endless bus start zero s h b ram more = refl
find_memory_size_endless bus start (suc fuel) s h b ram more =
    let twice : 2 * start ≡ start + start = omega arith in
    let nonzero : start ≢ 0 = omega arith in
    let found = halve bus 32 start start s in
    let is : found.0 ≡ start =
      halve-present bus 31 start start s h (omega arith) (omega arith)
        (subst (λ (t : ℕ). HasMemory bus (t - 4)) twice ram) in
    let place : 2 * start + 32768 ≡ start + found.0 + 32768 = omega (arith, is) in
    rw (==_ne start 0 nonzero) (
      look_above-none bus (find_memory_size bus fuel) start found.0 found.1 (omega (arith, is))
        (subst (HasMemory bus) place more)
        (λ t.
          subst (λ (v : ℕ). find_memory_size bus fuel v t ≡ none) (sym is)
            (find_memory_size_endless bus start fuel t h b ram more)))
