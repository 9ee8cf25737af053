-- ===== src/Window/Grant.antt =====
-- The addresses that `addr_for_bar` grants.
use bboot.Base.{
  ℕ, ◌+◌, ◌-◌, ◌*◌, ◌/◌, ◌%◌, ◌^◌, ◌≤◌, ◌<◌, ◌≢◌, ◌⊎◌, inl, inr, List, [], ◌∷◌, ◌≡◌, ltb, ==_ne,
  Bool-cases, true, false, ap, sym, ◌∙◌, word, arith, add32, sub32, bit_and,
}
use bboot.Base.Bits.{bit_and-high}
use mathlib.Core.Path.{subst}
use native.Mathlib.Nat.{one-le-pow, mul-mod_left}
use bboot.Window.{Windows, round_down, round_up, addr_for_bar, place_bars}

-- Powers of two up to 2 ^ 31, with the cofactor in 2 ^ 32.
pub record IsSize (size : ℕ) : Type 0 where
  pub log : ℕ
  pub rest : ℕ
  pub power : 2 ^ log ≡ size
  pub cofactor : 2 ^ rest * 2 ^ log ≡ word
  pub small : size < word

IsSize-positive : {size : ℕ} → IsSize size → 1 ≤ size
IsSize-positive {size} s = omega (arith, s.power, one-le-pow s.log 2)

mask-sub32 : (size : ℕ) (s : IsSize size) → sub32 0 size ≡ 2 ^ s.rest * 2 ^ s.log - 2 ^ s.log
mask-sub32 size s = omega (arith, s.power, s.cofactor, s.small, IsSize-positive s)

round_down-div : (n size : ℕ) → IsSize size → n < word → round_down n size ≡ n / size * size
unfolding round_down
round_down-div n size s h =
    ap (bit_and n) (mask-sub32 size s)
    ∙ bit_and-high s.log s.rest n (omega (arith, s.cofactor))
    ∙ ap (λ (t : ℕ). n / t * t) s.power

-- `ROUND_UP` gives the least multiple of a power of two from a number on, where the sum does not
-- wrap.
pub round_up-least :
    (n size : ℕ)
    → IsSize size
    → n + size ≤ word
    → (n ≤ round_up n size) × (round_up n size < n + size) × (round_up n size % size ≡ 0)
unfolding round_up
round_up-least n size s h = ground (
  arith,
  IsSize-positive s,
  mul-mod_left (sub32 (add32 n size) 1 / size) size,
  round_down-div (sub32 (add32 n size) 1) size s (omega arith),
)

-- The end of the memory window.
abbrev pub top : Windows → ℕ
top w = w.membase + w.memlen

-- A granted range of the memory window: aligned to its size, above what is taken, below the end.
pub record IsGrant (w : Windows) (size : ℕ) (r : ℕ × Windows) : Type 0 where
  pub above : w.memavail ≤ r.0
  pub aligned : r.0 % size ≡ 0
  pub gap : r.0 < w.memavail + size
  pub inside : r.0 + size ≤ top w
  pub taken : r.1 ≡ record w { memavail = r.0 + size }

-- The three ways through the branch for memory registers.
addr_for_bar_memory :
    (type size : ℕ) (w : Windows)
    → type ≢ 1
    → 1 ≤ size
    → ((ltb (add32 w.membase w.memlen) (add32 (round_up w.memavail size) size) ≡ true)
        × (addr_for_bar type size w ≡ (0, w)))
      ⊎ ((ltb (add32 w.membase w.memlen) (add32 (round_up w.memavail size) size) ≡ false)
          × (addr_for_bar type size w ≡ (
            round_up w.memavail size,
            record w { memavail = add32 (round_up w.memavail size) size },
          )))
unfolding addr_for_bar
addr_for_bar_memory type size w t s =
    let nonzero : size ≢ 0 = omega arith in
    elim (Bool-cases (ltb (add32 w.membase w.memlen) (add32 (round_up w.memavail size) size))) [
      | inl e ↦ inl (e, rw (==_ne size 0 nonzero, ==_ne type 1 t, e))
      | inr e ↦ inr (e, rw (==_ne size 0 nonzero, ==_ne type 1 t, e))
    ]

-- A memory register either gets an aligned range of the window, which no later one can get, or, where
-- the next aligned range passes the end of the window, gets no address and nothing is taken. Its size
-- is a power of two, and no sum wraps.
pub addr_for_bar-IsGrant :
    (type size : ℕ) (w : Windows)
    → type ≢ 1
    → IsSize size
    → top w < word
    → w.memavail + 2 * size ≤ word
    → IsGrant w size (addr_for_bar type size w)
      ⊎ ((top w < round_up w.memavail size + size) × (addr_for_bar type size w ≡ (0, w)))
addr_for_bar-IsGrant type size w t s h fits =
    let least = round_up-least w.memavail size s (omega (arith, IsSize-positive s)) in
    elim (addr_for_bar_memory type size w t (IsSize-positive s)) [
      | inl e ↦ inr (ground (arith, e.0), e.1)
      | inr e ↦ inl (
          subst (IsGrant w size) (sym e.1) (record {
            above = least.0;
            aligned = least.2;
            gap = least.1;
            inside = ground (arith, e.0);
            taken = ap (λ (v : ℕ). record w { memavail = v }) (omega arith);
          }))
    ]

-- Ranges in order of address, each aligned to its size, between two bounds; an address 0 is no range.
abbrev pub IsLaid : ℕ → ℕ → List (ℕ × ℕ) → Type 0
IsLaid low high [] = low ≤ high
IsLaid low high ((base, size) ∷ rest) =
    ((base ≡ 0) × IsLaid low high rest)
    ⊎ ((low ≤ base) × (base % size ≡ 0) × IsLaid (base + size) high rest)

-- Memory registers whose sizes are powers of two that cannot wrap an address.
abbrev pub AreMemoryBars : Windows → List (ℕ × ℕ) → Type 0
AreMemoryBars w [] = Unit {0}
AreMemoryBars w ((type, size) ∷ bars) =
    ((type ≢ 1) × IsSize size × (top w + 2 * size ≤ word)) × AreMemoryBars w bars

-- For any sequence of memory registers, no two of the ranges that are granted overlap, each is aligned
-- to its size, and all of them are inside the memory window. The sizes are powers of two, the
-- window ends two sizes or more below the end of the address space, and what is free lies in it.
pub place_bars-IsLaid :
    (bars : List (ℕ × ℕ)) (w : Windows)
    → w.memavail ≤ top w
    → top w < word
    → AreMemoryBars w bars
    → IsLaid w.memavail (top w) (place_bars bars w).0
unfolding place_bars
place_bars-IsLaid [] w a h bs = a
place_bars-IsLaid ((type, size) ∷ bars) w a h bs =
    elim (addr_for_bar-IsGrant type size w bs.0.0 bs.0.1 h (omega (arith, bs.0.2))) [
      | inl g ↦ inr (
        g.above,
        g.aligned,
        subst
            (λ (v : Windows).
              IsLaid ((addr_for_bar type size w).0 + size) (top w) (place_bars bars v).0)
            (sym g.taken)
            (place_bars-IsLaid bars (record w { memavail = (addr_for_bar type size w).0 + size })
              g.inside h bs.1),
      )
      | inr e ↦ inl (
        ap (λ (r : ℕ × Windows). r.0) e.1,
        subst (λ (r : ℕ × Windows). IsLaid w.memavail (top w) (place_bars bars r.1).0) (sym e.1)
            (place_bars-IsLaid bars w a h bs.1),
      )
    ]

-- Where the next aligned range of a memory register would end at the end of the address space, the sum
-- wraps: the register gets that range though it is outside the window, and the next free
-- address becomes 0.
pub addr_for_bar_wraps :
    (type size : ℕ) (w : Windows)
    → type ≢ 1
    → IsSize size
    → top w < word
    → round_up w.memavail size + size ≡ word
    → ((addr_for_bar type size w).0 + size ≡ word)
      × ((addr_for_bar type size w).1 ≡ record w { memavail = 0 })
addr_for_bar_wraps type size w t s h wraps =
    elim (addr_for_bar_memory type size w t (IsSize-positive s)) [
      | inl e ↦ absurd (ground (arith, e.0))
      | inr e ↦ (
        ap (λ (r : ℕ × Windows). r.0 + size) e.1 ∙ wraps,
        ap (λ (r : ℕ × Windows). r.1) e.1
            ∙ ap (λ (v : ℕ). record w { memavail = v }) (omega (arith, wraps)),
      )
    ]
