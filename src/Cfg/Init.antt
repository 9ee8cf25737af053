-- ===== src/Cfg/Init.antt =====
-- `cfg_init` against its specification: the option string without its surrounding blanks.
use bboot.Base.{
  ℕ, zero, suc, ◌+◌, ◌≤◌, ◌<◌, ◌≢◌, [], ◌∷◌, ◌++◌, ◌≡◌, refl, sym, ap, ◌∙◌, none, some, ◌==◌,
  if◌then◌else◌, Bytes, codes, length, get_or, set, take, arith, length-set, replicate,
}
use native.Mathlib.Numerals.{add-one}
use bboot.Cfg.{
  strlen, strspn, string, last_kept, drop_lead, drop_trail, cfg_init, overwrite, Answer,
  load_options, positive, default_opts, options_size,
}
use bboot.Cfg.Trim.{
  trim_start, trim_behind_first, strlen-string, strlen-le, strspn-le, drop-strspn, string-set,
  string-drop_lead, length-drop_lead, last_kept-trim, take-trim_rest, trim_rest-le,
  length-overwrite,
}

-- The buffer as the C program starts with it.
unfoldable pub fresh : Bytes
fresh = replicate options_size 0

unfoldable pub blanks : Bytes
blanks = codes " \t"

-- The string that the firmware has under /options/bboot, or the default.
abbrev pub option_string : Answer → Bytes
option_string a = if positive a.result then string a.stored else default_opts

get_or-string : (o : Bytes) (i : ℕ) → i < strlen o → get_or (string o) i 0 ≡ get_or o i 0
unfolding string strlen
get_or-string [] i h = absurd (omega arith)
get_or-string (c ∷ o) zero h = ground arith
get_or-string (c ∷ o) (suc i) h = ground (arith, get_or-string o i)

last_kept-string : (o : Bytes) (i : ℕ) → i < strlen o → last_kept (string o) i ≡ last_kept o i
unfolding last_kept
last_kept-string o zero h = refl
last_kept-string o (suc i) h = ground (arith, get_or-string o (suc i), last_kept-string o i)

take_all : (s : Bytes) (n : ℕ) → length s ≤ n → take n s ≡ s
take_all [] zero h = refl
take_all [] (suc n) h = refl
take_all (c ∷ s) zero h = absurd (omega arith)
take_all (c ∷ s) (suc n) h = ap (◌∷◌ c) (take_all s n (omega arith))

kept-trim_behind_first :
    (s : Bytes) (n : ℕ) → length s ≡ suc n → take (suc (last_kept s n)) s ≡ trim_behind_first s
unfolding trim_behind_first
kept-trim_behind_first [] n h = absurd (omega arith)
kept-trim_behind_first (c ∷ s) n h =
    let e : length s ≡ n = omega arith in
    rw (last_kept-trim c s n (omega arith), take_all s n (omega arith))
      (ap (◌∷◌ c) (take-trim_rest s))

last_kept-le : (o : Bytes) (n : ℕ) → last_kept o n ≤ n
unfolding last_kept
last_kept-le o zero = omega arith
last_kept-le o (suc n) = ground (arith, last_kept-le o n)

drop_trail-trim_behind_first :
    (o : Bytes) (n : ℕ)
    → strlen o ≡ suc n
    → (r : Bytes) × (drop_trail o (suc n) ≡ some r)
      × (string r ≡ trim_behind_first (string o))
      × (length r ≡ length o)
unfolding drop_trail
drop_trail-trim_behind_first o n h = (
  if last_kept o n == n then o else set o (last_kept o n + 1) 0,
  refl,
  ground (
    arith,
    add-one (last_kept o n),
    strlen-string o,
    last_kept-le o n,
    last_kept-string o n,
    kept-trim_behind_first (string o) n,
    take_all (string o) (suc n),
    string-set o (suc (last_kept o n)),
  ),
  ground (arith, length-set o (last_kept o n + 1) 0),
)

string-overwrite :
    (s : Bytes) (n : ℕ) → length s ≤ n → string (overwrite (replicate n 0) s) ≡ string s
unfolding string overwrite
string-overwrite [] zero h = refl
string-overwrite [] (suc n) h = refl
string-overwrite (c ∷ s) zero h = absurd (omega arith)
string-overwrite (c ∷ s) (suc n) h = ground (arith, string-overwrite s n (omega arith))

string-default : (o : Bytes) → string (overwrite o (default_opts ++ (0 ∷ []))) ≡ default_opts
unfolding string overwrite
string-default o = refl

length-string : (s : Bytes) → length (string s) ≤ length s
length-string s = omega (arith, strlen-string s, strlen-le s)

-- What the loaded buffer holds.
load_options_lem :
    (a : Answer)
    → length a.stored < options_size
    → (string (load_options a fresh) ≡ option_string a)
      × (length (load_options a fresh) ≡ options_size)
      × (strlen (load_options a fresh) < options_size)
unfolding load_options fresh
load_options_lem a h = ground (
  arith,
  string-overwrite a.stored options_size,
  string-default (overwrite fresh a.stored),
  length-overwrite fresh a.stored,
  length-overwrite (overwrite fresh a.stored) (default_opts ++ (0 ∷ [])),
  length-string a.stored,
  strlen-string (load_options a fresh),
)

drop_lead-trim_start :
    (o : Bytes)
    → strlen o < length o
    → (string (drop_lead o (strspn o blanks)) ≡ trim_start blanks (string o))
      × (length (drop_lead o (strspn o blanks)) ≡ length o)
drop_lead-trim_start o h = (
  string-drop_lead o (strspn o blanks) (strspn-le o blanks) h ∙ drop-strspn o blanks,
  length-drop_lead o (strspn o blanks) (strspn-le o blanks) h,
)

length-zero : (s : Bytes) → length s ≡ 0 → s ≡ []
length-zero [] h = refl
length-zero (c ∷ s) h = absurd (omega arith)

trim_start-le : (a s : Bytes) → length (trim_start a s) ≤ length s
unfolding trim_start
trim_start-le a [] = omega arith
trim_start-le a (c ∷ s) = ground (arith, trim_start-le a s)

trim_behind_first-le : (s : Bytes) → length (trim_behind_first s) ≤ length s
unfolding trim_behind_first
trim_behind_first-le [] = omega arith
trim_behind_first-le (c ∷ s) = omega (arith, trim_rest-le s)

-- The last part of `cfg_init` on a string that is not empty.
finish :
    (o s : Bytes)
    → string o ≡ s
    → s ≢ []
    → (r : Bytes) × (drop_trail o (strlen o) ≡ some r)
      × (string r ≡ trim_behind_first s)
      × (length r ≡ length o)
      × (strlen r ≤ strlen o)
finish o s e ne = go (strlen o) refl
  where
    go :
        (n : ℕ)
        → strlen o ≡ n
        → (r : Bytes) × (drop_trail o n ≡ some r)
          × (string r ≡ trim_behind_first s)
          × (length r ≡ length o)
          × (strlen r ≤ strlen o)
    go zero z = absurd (ne (sym e ∙ length-zero (string o) (strlen-string o ∙ z)))
    go (suc n) z =
        let (r, ran, is, len) = drop_trail-trim_behind_first o n z in
        (
          r,
          ran,
          is ∙ ap trim_behind_first e,
          len,
          omega (
            arith,
            strlen-string r,
            strlen-string o,
            ap length is,
            trim_behind_first-le (string o),
          ),
        )

-- For a buffer that starts out as zeros, and firmware that respects the length it is given, `cfg_init`
-- stays in the buffer unless the option string is blank; it then leaves the option string, terminated inside
-- the buffer, without its blanks in front and without the blanks and line ends behind its last other character. The
-- first character that is no blank is kept, even if it is a line end and nothing but blanks and line ends follow.
pub cfg_init-trim :
    (a : Answer)
    → length a.stored < options_size
    → trim_start blanks (option_string a) ≢ []
    → (o : Bytes) × (cfg_init a fresh ≡ some o)
      × (string o ≡ trim_behind_first (trim_start blanks (option_string a)))
      × (length o ≡ options_size)
      × (strlen o < options_size)
unfolding cfg_init blanks
cfg_init-trim a h ne =
    let l = load_options_lem a h in
    let m = drop_lead-trim_start (load_options a fresh) (omega (arith, l.1, l.2)) in
    let s = m.0 ∙ ap (trim_start blanks) l.0 in
    let (o, ran, is, len, below) =
      finish (drop_lead (load_options a fresh) (strspn (load_options a fresh) blanks)) _ s ne in
    (
      o,
      ran,
      is,
      omega (arith, l.1, m.1, len),
      omega (
        arith,
        l.2,
        below,
        ap length m.0,
        strlen-string (load_options a fresh),
        strlen-string (drop_lead (load_options a fresh) (strspn (load_options a fresh) blanks)),
        trim_start-le blanks (string (load_options a fresh)),
      ),
    )

-- On a blank option string `cfg_init` reads in front of its buffer.
pub cfg_init-fault :
    (a : Answer)
    → length a.stored < options_size
    → trim_start blanks (option_string a) ≡ []
    → cfg_init a fresh ≡ none
unfolding cfg_init drop_trail blanks
cfg_init-fault a h e =
    let l = load_options_lem a h in
    let m = drop_lead-trim_start (load_options a fresh) (omega (arith, l.1, l.2)) in
    let moved = drop_lead (load_options a fresh) (strspn (load_options a fresh) blanks) in
    let z : strlen moved ≡ 0 =
      sym (strlen-string moved) ∙ ap length (m.0 ∙ ap (trim_start blanks) l.0 ∙ e) in
    rw z
