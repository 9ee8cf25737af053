-- ===== src/Cfg/Trim.antt =====
-- `cfg_init` trims the option string, stays inside the buffer, and keeps it terminated.
use bboot.Base.{
  ℕ, zero, suc, ◌+◌, ◌-◌, ◌≤◌, ◌<◌, [], ◌∷◌, ◌++◌, ◌≡◌, refl, ap, ◌∙◌, ◌==◌, ==_ne, if◌then◌else◌,
  Bytes, length, get_or, set, take, drop, arith, Bool-cases, inl, inr, length-append, length-take,
  length-drop,
}
use native.Mathlib.Numerals.{add-one}
use bboot.Cfg.{has, strlen, strspn, string, blank_or_eol, last_kept, drop_lead, overwrite}

-- The specification: the string without its leading characters of `a`.
unfoldable pub trim_start : Bytes → Bytes → Bytes
trim_start a [] = []
trim_start a (c ∷ s) = if has a c then trim_start a s else c ∷ s

-- A string without its trailing blanks and line ends.
unfoldable pub keep : ℕ → Bytes → Bytes
keep c [] = if blank_or_eol c then [] else c ∷ []
keep c (d ∷ s) = c ∷ d ∷ s

unfoldable pub trim_rest : Bytes → Bytes
trim_rest [] = []
trim_rest (c ∷ s) = keep c (trim_rest s)

-- The first character is kept whatever it is, be it a blank or a line end; only what follows it is trimmed.
unfoldable pub trim_behind_first : Bytes → Bytes
trim_behind_first [] = []
trim_behind_first (c ∷ s) = c ∷ trim_rest s

pub strlen-string : (o : Bytes) → length (string o) ≡ strlen o
unfolding strlen string
strlen-string [] = refl
strlen-string (c ∷ o) = ground (arith, strlen-string o)

pub strlen-le : (o : Bytes) → strlen o ≤ length o
unfolding strlen
strlen-le [] = omega arith
strlen-le (c ∷ o) = ground (arith, strlen-le o)

pub strspn-le : (o a : Bytes) → strspn o a ≤ strlen o
unfolding strlen strspn
strspn-le [] a = omega arith
strspn-le (c ∷ o) a = ground (arith, strspn-le o a)

pub drop-strspn : (o a : Bytes) → drop (strspn o a) (string o) ≡ trim_start a (string o)
unfolding string strspn trim_start
drop-strspn [] a = refl
drop-strspn (c ∷ o) a = ground (arith, drop-strspn o a)

string-drop : (n : ℕ) (o : Bytes) → n ≤ strlen o → string (drop n o) ≡ drop n (string o)
unfolding string strlen
string-drop zero o h = refl
string-drop (suc n) [] h = refl
string-drop (suc n) (c ∷ o) h = ground (arith, string-drop n o)

strlen-drop : (n : ℕ) (o : Bytes) → n ≤ strlen o → strlen (drop n o) ≡ strlen o - n
unfolding strlen
strlen-drop zero o h = omega arith
strlen-drop (suc n) [] h = omega arith
strlen-drop (suc n) (c ∷ o) h = ground (arith, strlen-drop n o)

-- A copy of a string with its NUL holds that string, whatever follows.
string-take :
    (o rest : Bytes) → strlen o < length o → string (take (suc (strlen o)) o ++ rest) ≡ string o
unfolding string strlen
string-take [] rest h = absurd (omega arith)
string-take (c ∷ o) rest h = elim (Bool-cases (c == 0)) [
  | inl e ↦ ground arith
  | inr e ↦ rw e (ground (arith, string-take o rest))
]

pub string-set : (o : Bytes) (i : ℕ) → i ≤ strlen o → string (set o i 0) ≡ take i (string o)
unfolding string strlen
string-set [] zero h = refl
string-set [] (suc i) h = refl
string-set (c ∷ o) zero h = refl
string-set (c ∷ o) (suc i) h = ground (arith, string-set o i)

pub length-overwrite : (o s : Bytes) → length s ≤ length o → length (overwrite o s) ≡ length o
unfolding overwrite
length-overwrite o s h =
    omega (arith, length-append s (drop (length s) o), length-drop (length s) o)

-- Moving the string down drops its first `n` characters.
pub string-drop_lead :
    (o : Bytes) (n : ℕ)
    → n ≤ strlen o
    → strlen o < length o
    → string (drop_lead o n) ≡ drop n (string o)
unfolding drop_lead
string-drop_lead o zero h t = refl
string-drop_lead o (suc n) h t =
    rw (add-one, ← strlen-drop (suc n) o h, ==_ne (suc n) 0 (omega arith))
      (string-take (drop (suc n) o) _
          (omega (arith, strlen-drop (suc n) o h, length-drop (suc n) o))
        ∙ string-drop (suc n) o h)

pub length-drop_lead :
    (o : Bytes) (n : ℕ) → n ≤ strlen o → strlen o < length o → length (drop_lead o n) ≡ length o
unfolding drop_lead
length-drop_lead o zero h t = refl
length-drop_lead o (suc n) h t =
    let k = strlen o - suc n + 1 in
    ground (
      arith,
      strlen-le o,
      length-append (take k (drop (suc n) o)) (drop k o),
      length-take k (drop (suc n) o),
      length-drop (suc n) o,
      length-drop k o,
    )

-- What a longer prefix keeps.
take-suc : (s : Bytes) (i : ℕ) → i < length s → take (suc i) s ≡ take i s ++ (get_or s i 0 ∷ [])
take-suc [] i h = absurd (omega arith)
take-suc (c ∷ s) zero h = refl
take-suc (c ∷ s) (suc i) h = ap (◌∷◌ c) (take-suc s i (omega arith))

keep-concat : (d : ℕ) (s : Bytes) (c : ℕ) → keep d (s ++ (c ∷ [])) ≡ d ∷ (s ++ (c ∷ []))
unfolding keep
keep-concat d [] c = refl
keep-concat d (x ∷ s) c = refl

trim_rest-concat :
    (s : Bytes) (c : ℕ)
    → trim_rest (s ++ (c ∷ [])) ≡ (if blank_or_eol c then trim_rest s else s ++ (c ∷ []))
unfolding trim_rest keep
trim_rest-concat [] c = refl
trim_rest-concat (d ∷ s) c = elim (Bool-cases (blank_or_eol c)) [
  | inl e ↦ rw (trim_rest-concat s c, e)
  | inr e ↦ rw (trim_rest-concat s c, e) (keep-concat d s c)
]

-- The loop of `cfg_init` stops at the last character that the specification keeps.
pub last_kept-trim :
    (c : ℕ) (s : Bytes) (i : ℕ) → i ≤ length s → last_kept (c ∷ s) i ≡ length (trim_rest (take i s))
unfolding last_kept trim_rest
last_kept-trim c s zero h = refl
last_kept-trim c s (suc i) h =
    rw (take-suc s i h, trim_rest-concat (take i s))
      (ground (
        arith,
        last_kept-trim c s i,
        length-append (take i s) (get_or s i 0 ∷ []),
        length-take i s,
      ))

pub take-trim_rest : (s : Bytes) → take (length (trim_rest s)) s ≡ trim_rest s
unfolding trim_rest keep
take-trim_rest [] = refl
take-trim_rest (c ∷ s) = go (trim_rest s) (take-trim_rest s)
  where
    go : (t : Bytes) → take (length t) s ≡ t → take (length (keep c t)) (c ∷ s) ≡ keep c t
    go [] h = ground arith
    go (d ∷ t) h = ap (◌∷◌ c) h

pub trim_rest-le : (s : Bytes) → length (trim_rest s) ≤ length s
unfolding trim_rest keep
trim_rest-le [] = omega arith
trim_rest-le (c ∷ s) = ground (arith, trim_rest-le s)
