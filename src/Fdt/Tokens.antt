-- ===== src/Fdt/Tokens.antt =====
-- The walk of `fdt_find_prop` over bytes refines a walk over tokens.
use bboot.Base.{
  ℕ, zero, suc, ◌+◌, ◌-◌, ◌≤◌, ◌<◌, ◌≢◌, Bool, false, ◌&&◌, ◌||◌, List, [], ◌∷◌, ◌≡◌, refl, Option,
  none, some, ◌==◌, if◌then◌else◌, Bytes, length, arith, bytes_eq, Bool-cases, inl, inr,
}
use bboot.Memory.{Mem, load_bytes, str_eq, strlen}
use bboot.Fdt.{
  align4, Found, found, null, Walk, go_on, return, begin_node, end_node, property, round, walk,
  fdt32,
}

-- The items of the structure block, with names and data in place of offsets.
pub data Token : Type 0 where
  begin : Bytes → Token
  end : Token
  prop : Bytes → Bytes → Token
  nop : Token
  fin : Token

abbrev pub NoNul : Bytes → Type 0
NoNul [] = Unit {0}
NoNul (c ∷ s) = (c ≢ 0) × NoNul s

-- A C string in memory.
abbrev pub IsString : Mem → ℕ → Bytes → Type 0
IsString m a [] = m a ≡ 0
IsString m a (c ∷ s) = (m a ≡ c) × (c ≢ 0) × IsString m (a + 1) s

-- Memory holds these tokens from `p` on, the last one `fin`; names are shorter than `limit`.
abbrev pub IsTokens : Mem → ℕ → ℕ → ℕ → List Token → Type 0
IsTokens m strings limit p [] = ⊥
IsTokens m strings limit p (begin n ∷ ts) =
    (fdt32 m p ≡ 1)
    × IsString m (p + 4) n
    × (length n < limit)
    × IsTokens m strings limit (p + 4 + align4 (length n + 1)) ts
IsTokens m strings limit p (end ∷ ts) = (fdt32 m p ≡ 2) × IsTokens m strings limit (p + 4) ts
IsTokens m strings limit p (prop n d ∷ ts) =
    (fdt32 m p ≡ 3)
    × (fdt32 m (p + 4) ≡ length d)
    × IsString m (strings + fdt32 m (p + 4 + 4)) n
    × (load_bytes m (p + 4 + 8) (length d) ≡ d)
    × IsTokens m strings limit (p + 4 + 8 + align4 (length d)) ts
IsTokens m strings limit p (nop ∷ ts) = (fdt32 m p ≡ 4) × IsTokens m strings limit (p + 4) ts
IsTokens m strings limit p (fin ∷ ts) = fdt32 m p ≡ 9

-- The walk over tokens.
unfoldable pub find : Bytes → Bytes → ℕ → Bool → List Token → Option Bytes
find node name depth target [] = none
find node name depth target (begin n ∷ ts) =
    find node name (depth + 1) (depth + 1 == 2 && bytes_eq n node || target) ts
find node name depth target (end ∷ ts) =
    let rest = find node name (depth - 1) false ts in
    if depth == 2 && target then none else if depth == 0 then none else rest
find node name depth target (prop n d ∷ ts) =
    let rest = find node name depth target ts in if target && bytes_eq n name then some d else rest
find node name depth target (nop ∷ ts) = find node name depth target ts
find node name depth target (fin ∷ ts) = none

str_eq-bytes_eq :
    (m : Mem) (a : ℕ) (n s : Bytes) → IsString m a n → NoNul s → str_eq m a s ≡ bytes_eq n s
unfolding str_eq bytes_eq
str_eq-bytes_eq m a [] [] h k = ground arith
str_eq-bytes_eq m a [] (c ∷ s) h k = ground arith
str_eq-bytes_eq m a (c ∷ n) [] h k = ground arith
str_eq-bytes_eq m a (c ∷ n) (d ∷ s) (e, ne, h) (ne', k) =
    ground (arith, str_eq-bytes_eq m (a + 1) n s h k)

strlen-IsString :
    (limit : ℕ) (m : Mem) (a : ℕ) (n : Bytes)
    → IsString m a n
    → length n < limit
    → strlen limit m a ≡ some (length n)
unfolding strlen
strlen-IsString zero m a n h lt = absurd (omega arith)
strlen-IsString (suc limit) m a [] h lt = ground arith
strlen-IsString (suc limit) m a (c ∷ n) (e, ne, h) lt =
    ground (arith, strlen-IsString limit m (a + 1) n h (omega arith))

-- What the walk over bytes answers for what the walk over tokens finds.
abbrev pub Answers : Mem → Option Bytes → Found → Type 0
Answers m none r = r ≡ null
Answers m (some d) r = (p : ℕ) × (r ≡ found p (length d)) × (load_bytes m p (length d) ≡ d)

module _ (limit : ℕ) (m : Mem) (strings : ℕ) (node name : Bytes) where
  walk-go_on :
      (fuel : ℕ) (w w' : Walk)
      → round limit m strings node name w ≡ go_on w'
      → walk limit m strings node name (suc fuel) w ≡ walk limit m strings node name fuel w'
  unfolding walk
  walk-go_on fuel w w' e = ground (arith, e)

  walk-return :
      (fuel : ℕ) (w : Walk) (r : Found)
      → round limit m strings node name w ≡ return r
      → walk limit m strings node name (suc fuel) w ≡ r
  unfolding walk
  walk-return fuel w r e = ground (arith, e)

  round-begin :
      (w : Walk) (n : Bytes)
      → NoNul node
      → fdt32 m w.p ≡ 1
      → IsString m (w.p + 4) n
      → length n < limit
      → round limit m strings node name w
        ≡ go_on (record {
          p = w.p + 4 + align4 (length n + 1);
          depth = w.depth + 1;
          in_target = w.depth + 1 == 2 && bytes_eq n node || w.in_target;
        })
  unfolding round begin_node
  round-begin w n k tag s lt =
      ground
        (arith, strlen-IsString limit m (w.p + 4) n s lt, str_eq-bytes_eq m (w.p + 4) n node s k)

  round-prop :
      (w : Walk) (n : Bytes) (len : ℕ)
      → NoNul name
      → fdt32 m w.p ≡ 3
      → fdt32 m (w.p + 4) ≡ len
      → IsString m (strings + fdt32 m (w.p + 4 + 4)) n
      → round limit m strings node name w ≡ (
          if w.in_target && bytes_eq n name
          then return (found (w.p + 4 + 8) len)
          else go_on (record w { p = w.p + 4 + 8 + align4 len }))
  unfolding round property
  round-prop w n len k tag is_len s =
      ground (arith, str_eq-bytes_eq m (strings + fdt32 m (w.p + 4 + 4)) n name s k)

  round-end :
      (w : Walk)
      → fdt32 m w.p ≡ 2
      → round limit m strings node name w ≡ (
          if w.depth == 2 && w.in_target
          then return null
          else if w.depth == 0
          then return null
          else go_on (record { p = w.p + 4; depth = w.depth - 1; in_target = false }))
  unfolding round end_node
  round-end w tag = ground arith

  round-nop :
      (w : Walk)
      → fdt32 m w.p ≡ 4
      → round limit m strings node name w ≡ go_on (record w { p = w.p + 4 })
  unfolding round
  round-nop w tag = ground arith

  round-fin : (w : Walk) → fdt32 m w.p ≡ 9 → round limit m strings node name w ≡ return null
  unfolding round
  round-fin w tag = ground arith

pub walk-find :
    (limit : ℕ) (m : Mem) (strings : ℕ) (node name : Bytes)
    → NoNul node
    → NoNul name
    → (ts : List Token) (fuel : ℕ) (w : Walk) → length ts ≤ fuel
    → IsTokens m strings limit w.p ts
    → Answers m (find node name w.depth w.in_target ts) (walk limit m strings node name fuel w)
unfolding find
walk-find limit m strings node name k k' [] fuel w le t = absurd t
walk-find limit m strings node name k k' (x ∷ ts) zero w le t = absurd (omega arith)
walk-find limit m strings node name k k' (begin n ∷ ts) (suc fuel) w le (tag, is, lt, t) =
    rw
      (walk-go_on limit m strings node name fuel w _
        (round-begin limit m strings node name w n k tag is lt))
      (walk-find limit m strings node name k k' ts fuel _ (omega arith) t)
walk-find limit m strings node name k k' (end ∷ ts) (suc fuel) w le (tag, t) =
    let e = round-end limit m strings node name w tag in
    elim (Bool-cases (w.depth == 2 && w.in_target)) [
      | inl out ↦ rw (out, walk-return limit m strings node name fuel w null (rw out at e))
      | inr on ↦ elim (Bool-cases (w.depth == 0)) [
        | inl top ↦
            rw (on, top, walk-return limit m strings node name fuel w null (rw (on, top) at e))
        | inr below ↦
            rw (on, below, walk-go_on limit m strings node name fuel w _ (rw (on, below) at e))
              (walk-find limit m strings node name k k' ts fuel _ (omega arith) t)
      ]
    ]
walk-find limit m strings node name k k' (prop n d ∷ ts) (suc fuel) w le (tag, len, is, bytes, t) =
    let e = round-prop limit m strings node name w n (length d) k' tag len is in
    elim (Bool-cases (w.in_target && bytes_eq n name)) [
      | inl hit ↦
          rw (hit, walk-return limit m strings node name fuel w _ (rw hit at e))
            (w.p + 4 + 8, refl, bytes)
      | inr miss ↦
          rw (miss, walk-go_on limit m strings node name fuel w _ (rw miss at e))
            (walk-find limit m strings node name k k' ts fuel _ (omega arith) t)
    ]
walk-find limit m strings node name k k' (nop ∷ ts) (suc fuel) w le (tag, t) =
    rw (walk-go_on limit m strings node name fuel w _ (round-nop limit m strings node name w tag))
      (walk-find limit m strings node name k k' ts fuel _ (omega arith) t)
walk-find limit m strings node name k k' (fin ∷ ts) (suc fuel) w le tag =
    walk-return limit m strings node name fuel w null (round-fin limit m strings node name w tag)
