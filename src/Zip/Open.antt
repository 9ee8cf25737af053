-- ===== src/Zip/Open.antt =====
-- What `zip_findLen` and `zip_openBuffer` find.
use bboot.Base.{
  ℕ, zero, suc, ◌+◌, ◌-◌, ◌^◌, ◌≤◌, ◌<◌, ◌⊎◌, true, false, ◌&&◌, ◌≡◌, refl, Option, none, some,
  ◌==◌, arith, not, ==_iff, Bool-cases, inl, inr,
}
use native.Mathlib.Decide.{ℕ_discrete}
use native.Mathlib.Nat.{add-zero}
use bboot.Memory.{Mem, read32}
use bboot.Zip.{
  Zip, end_record, sizeof_end, sizeof_local, find_end, find_er, start_er, single_disk,
  zip_open_buffer, zip_find_len,
}

abbrev pub HasEndAt : Mem → ℕ → Type 0
HasEndAt m a = read32 m a ≡ 0x504b0506

-- The backward search answers the last offset of a signature, at most `i`.
abbrev pub LastEnd : Mem → ℕ → ℕ → Option ℕ → Type 0
LastEnd m base i none = (j : ℕ) → j ≤ i → ¬ (HasEndAt m (base + j))
LastEnd m base i (some k) =
    (k ≤ i) × HasEndAt m (base + k) × ((j : ℕ) → k < j → j ≤ i → ¬ (HasEndAt m (base + j)))

LastEnd-suc :
    (m : Mem) (base i : ℕ) (r : Option ℕ)
    → ¬ (HasEndAt m (base + suc i))
    → LastEnd m base i r
    → LastEnd m base (suc i) r
LastEnd-suc m base i none free old =
    λ j h. elim (ℕ_discrete j (suc i)) [ yes e ↦ rw e free | no ne ↦ old j (omega arith) ]
LastEnd-suc m base i (some k) free (le, at, old) = (
  omega arith,
  at,
  λ j lt h. elim (ℕ_discrete j (suc i)) [ yes e ↦ rw e free | no ne ↦ old j lt (omega arith) ],
)

find_er-LastEnd : (m : Mem) (base i : ℕ) → LastEnd m base i (find_er m base i)
unfolding find_er
find_er-LastEnd m base zero = elim (Bool-cases (read32 m base == 0x504b0506)) [
  | inl e ↦ rw e (omega arith, rw add-zero ((==_iff _ _).0 e), λ j lt h. absurd (omega arith))
  | inr e ↦ rw e (λ j h at.
      let z : j ≡ 0 = omega arith in
      let same : read32 m base ≡ 0x504b0506 = rw (z, add-zero) at at in ground arith)
]
find_er-LastEnd m base (suc i) = elim (Bool-cases (read32 m (base + suc i) == 0x504b0506)) [
  | inl e ↦ rw (e, LastEnd) (omega arith, (==_iff _ _).0 e, λ j lt h. absurd (omega arith))
  | inr e ↦
      rw (e, LastEnd)
        (LastEnd-suc m base i (find_er m base i) (λ at. ground arith) (find_er-LastEnd m base i))
]

-- The forward search answers the first.
abbrev pub FirstEnd : Mem → ℕ → ℕ → ℕ → Option ℕ → Type 0
FirstEnd m base i rounds none = (j : ℕ) → i ≤ j → j < i + rounds → ¬ (HasEndAt m (base + j))
FirstEnd m base i rounds (some k) =
    (i ≤ k)
    × (k < i + rounds)
    × HasEndAt m (base + k)
    × ((j : ℕ) → i ≤ j → j < k → ¬ (HasEndAt m (base + j)))

FirstEnd-suc :
    (m : Mem) (base i rounds : ℕ) (r : Option ℕ)
    → ¬ (HasEndAt m (base + i))
    → FirstEnd m base (i + 1) rounds r
    → FirstEnd m base i (suc rounds) r
FirstEnd-suc m base i rounds none free old = λ j lo hi. elim (ℕ_discrete j i) [
  | yes e ↦ rw e free
  | no ne ↦ old j (omega arith) (omega arith)
]
FirstEnd-suc m base i rounds (some k) free (le, lt, at, old) = (
  omega arith,
  omega arith,
  at,
  λ j lo hi. elim (ℕ_discrete j i) [ yes e ↦ rw e free | no ne ↦ old j (omega arith) hi ],
)

find_end-FirstEnd :
    (m : Mem) (base i rounds : ℕ) → FirstEnd m base i rounds (find_end m base i rounds)
unfolding find_end
find_end-FirstEnd m base i zero = λ j h k. absurd (omega arith)
find_end-FirstEnd m base i (suc rounds) = elim (Bool-cases (read32 m (base + i) == 0x504b0506)) [
  | inl e ↦
      rw (e, FirstEnd) (omega arith, omega arith, (==_iff _ _).0 e, λ j lo hi. absurd (omega arith))
  | inr e ↦
      rw (e, FirstEnd)
        (FirstEnd-suc m base i rounds (find_end m base (i + 1) rounds) (λ at. ground arith)
          (find_end-FirstEnd m base (i + 1) rounds))
]

-- What `zip_openBuffer` accepts: the last end record in the buffer, wholly inside it, of an archive on
-- one disk; the cursor is reset.
pub record IsOpened (m : Mem) (base len : ℕ) (z : Zip) : Type 0 where
  pub is_base : z.base ≡ base
  pub is_len : z.len ≡ len
  pub no_header : z.gfh ≡ 0
  pub inside : (base ≤ z.er) × (z.er + sizeof_end ≤ base + len)
  pub has_end : HasEndAt m z.er
  pub is_last : (a : ℕ) → z.er < a → a + sizeof_end ≤ base + len → ¬ (HasEndAt m a)
  pub one_disk : single_disk (end_record m z.er) ≡ true

-- The successful path through `zip_openBuffer`.
zip_open_buffer-some :
    (m : Mem) (base len : ℕ) {z : Zip}
    → zip_open_buffer m base len ≡ some z
    → (i : ℕ) × (sizeof_end < len)
      × (find_er m base (len - sizeof_end) ≡ some i)
      × (single_disk (end_record m (base + i)) ≡ true)
      × (z ≡ record { base = base; len = len; er = base + i; gfh = 0 })
unfolding zip_open_buffer start_er
zip_open_buffer-some m base len {z} h = go (find_er m base (len - sizeof_end)) refl
  where
    go :
        (r : Option ℕ)
        → find_er m base (len - sizeof_end) ≡ r
        → (i : ℕ) × (sizeof_end < len)
          × (find_er m base (len - sizeof_end) ≡ some i)
          × (single_disk (end_record m (base + i)) ≡ true)
          × (z ≡ record { base = base; len = len; er = base + i; gfh = 0 })
    go none e = absurd (ground (arith, e))
    go (some i) e = (i, ground (arith, e), e, ground (arith, e), ground (arith, e))

zip_open_buffer-lt :
    (m : Mem) (base len : ℕ) {z : Zip} → zip_open_buffer m base len ≡ some z → sizeof_end < len
zip_open_buffer-lt m base len h = (zip_open_buffer-some m base len h).1

opened :
    (m : Mem) (base len i : ℕ) (z : Zip)
    → sizeof_end < len
    → LastEnd m base (len - sizeof_end) (some i)
    → single_disk (end_record m (base + i)) ≡ true
    → z ≡ record { base = base; len = len; er = base + i; gfh = 0 }
    → IsOpened m base len z
opened m base len i z lo (le, at, last) disk is = rw is (record {
  is_base = refl;
  is_len = refl;
  no_header = refl;
  inside = (omega arith, omega arith);
  has_end = at;
  is_last = λ a lt h end.
      let e : a ≡ base + (a - base) = omega arith in
      last (a - base) (omega arith) (omega arith) (rw e at end);
  one_disk = disk;
})

-- Where `zip_openBuffer` accepts a buffer, no header is current, the end record it keeps lies inside the
-- buffer, is the last one there, and is that of an archive on one disk.
pub zip_open_buffer-IsOpened :
    (m : Mem) (base len : ℕ) {z : Zip} → zip_open_buffer m base len ≡ some z → IsOpened m base len z
zip_open_buffer-IsOpened m base len {z} h =
    let (i, lo, found, disk, is) = zip_open_buffer-some m base len h in
    opened m base len i z lo (rw found at (find_er-LastEnd m base (len - sizeof_end))) disk is

-- A buffer of more than 22 bytes and less than 2 GB that holds an end record is refused only if its last
-- one is of an archive on several disks.
pub zip_open_buffer-none :
    (m : Mem) (base len : ℕ)
    → sizeof_end < len
    → len < 2 ^ 31
    → zip_open_buffer m base len ≡ none
    → (i : ℕ) → i + sizeof_end ≤ len
    → HasEndAt m (base + i)
    → ((j : ℕ) → i < j → j + sizeof_end ≤ len → ¬ (HasEndAt m (base + j)))
    → single_disk (end_record m (base + i)) ≡ false
unfolding zip_open_buffer start_er
zip_open_buffer-none m base len lo hi h i fits at last =
    go (find_er m base (len - sizeof_end)) refl (find_er-LastEnd m base (len - sizeof_end))
  where
    go :
        (r : Option ℕ)
        → find_er m base (len - sizeof_end) ≡ r
        → LastEnd m base (len - sizeof_end) r
        → single_disk (end_record m (base + i)) ≡ false
    go none e free = absurd (free i (omega arith) at)
    go (some k) e (le, end, free) =
        let not_below : ¬ (k < i) = λ lt. free i lt (omega arith) at in
        let not_above : ¬ (i < k) = λ lt. last k lt (omega arith) end in
        let same : k ≡ i = omega arith in rw (← same) (ground (arith, e))

-- Nothing, or the first end record behind a local header.
abbrev Guess : Mem → ℕ → ℕ → Type 0
Guess m base maxlen =
    (zip_find_len m base maxlen ≡ 0)
    ⊎ ((i : ℕ) × (zip_find_len m base maxlen ≡ i + sizeof_end)
        × HasEndAt m (base + i)
        × ((j : ℕ) → sizeof_local ≤ j → j < i → ¬ (HasEndAt m (base + j))))

find_len-cases : (m : Mem) (base maxlen : ℕ) → maxlen < 2 ^ 31 → Guess m base maxlen
unfolding zip_find_len
find_len-cases m base maxlen small =
    go (find_end m base sizeof_local (maxlen - sizeof_local)) refl
      (find_end-FirstEnd m base sizeof_local (maxlen - sizeof_local))
  where
    go :
        (r : Option ℕ)
        → find_end m base sizeof_local (maxlen - sizeof_local) ≡ r
        → FirstEnd m base sizeof_local (maxlen - sizeof_local) r
        → Guess m base maxlen
    go none e free = inl (ground (arith, e))
    go (some i) e (lo, hi, at, free) =
        elim (Bool-cases (not (base == 0) && read32 m base == 0x504b0304)) [
          | inl starts ↦ inr (i, ground (arith, e, starts), at, free)
          | inr other ↦ inl (ground (arith, other))
        ]

-- The length that `zip_findLen` guesses ends behind the first end record, and `zip_openBuffer` with that
-- length takes this record.
pub zip_find_len-open :
    (m : Mem) (base maxlen : ℕ) {z : Zip}
    → maxlen < 2 ^ 31
    → zip_open_buffer m base (zip_find_len m base maxlen) ≡ some z
    → (z.er + sizeof_end ≡ base + zip_find_len m base maxlen)
      × HasEndAt m z.er
      × ((a : ℕ) → base + sizeof_local ≤ a → a < z.er → ¬ (HasEndAt m a))
zip_find_len-open m base maxlen {z} small h = elim (find_len-cases m base maxlen small) [
  | inl none_found ↦ absurd (omega (arith, zip_open_buffer-lt m base _ h))
  | inr (i, len_is, at, free) ↦
      let o = zip_open_buffer-IsOpened m base (zip_find_len m base maxlen) h in
      let er_is : z.er ≡ base + i = omega (
        arith,
        o.inside,
        λ (lt : z.er < base + i). o.is_last (base + i) lt (omega (arith, len_is)) at,
      ) in
      (
        omega (arith, er_is, len_is),
        o.has_end,
        λ a lo lt end.
            let e : a ≡ base + (a - base) = omega arith in
            free (a - base) (omega arith) (omega (arith, er_is)) (rw e at end),
      )
]
