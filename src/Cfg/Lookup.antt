-- ===== src/Cfg/Lookup.antt =====
-- What the queries of cfg.c answer for a well-formed option string: words of a capital letter and
-- its option letters, parted by blanks.
use mathlib.Core.Option
use bboot.Base.{
  ℕ, zero, suc, ◌+◌, Bool, true, false, ◌||◌, ◌&&◌, List, [], ◌∷◌, ◌++◌, ◌≡◌, refl, Option, none,
  some, ◌==◌, if◌then◌else◌, Bytes, codes, get_or, ap, sym, ◌∙◌, drop, arith, ltb, leb,
}
use bboot.Cfg.{has, strchr, strcspn, letter_in, cfg_get_option, cfg_is_option}

-- A setting and its option letters.
pub record Setting : Type 0 where
  pub name : ℕ
  pub letters : Bytes

-- What follows a word: a blank and the next word, or the NUL and what lies behind.
unfoldable pub behind : List Setting → Bytes → Bytes
behind [] rest = 0 ∷ rest
behind (w ∷ ws) rest = b' ' ∷ w.name ∷ (w.letters ++ behind ws rest)

-- The words with a blank between two, as `cfg_init` leaves them: nothing but the NUL follows the last one.
unfoldable pub render : List Setting → Bytes → Bytes
render [] rest = 0 ∷ rest
render (w ∷ ws) rest = w.name ∷ (w.letters ++ behind ws rest)

unfoldable pub is_upper : ℕ → Bool
is_upper c = leb b'A' c && leb c b'Z'

-- Neither a capital letter, nor a blank, nor NUL.
unfoldable pub is_letter : ℕ → Bool
is_letter c = leb b'0' c && ltb c b'A' || ltb b'Z' c

unfoldable pub all : (ℕ → Bool) → Bytes → Bool
all p [] = true
all p (c ∷ s) = p c && all p s

unfoldable pub is_settings : List Setting → Bool
is_settings [] = true
is_settings (w ∷ ws) = is_upper w.name && all is_letter w.letters && is_settings ws

-- The specification: the option letters of the first word for the setting.
unfoldable pub letters_of : List Setting → ℕ → Option Bytes
letters_of [] s = none
letters_of (w ∷ ws) s = if w.name == s then some w.letters else letters_of ws s

unfoldable pub in_letters : Option Bytes → ℕ → Bool
in_letters none o = false
in_letters (some l) o = has l o

-- The string from the found character on.
found : Bytes → ℕ → Option Bytes
found o s = Option.map (λ k. drop k o) (strchr o s)

found-cons :
    (c : ℕ) (o : Bytes) (s : ℕ)
    → found (c ∷ o) s ≡ (if c == s then some (c ∷ o) else if c == 0 then none else found o s)
unfolding found strchr
found-cons c o s = ground arith

found-nul : (rest : Bytes) (s : ℕ) → is_upper s ≡ true → found (0 ∷ rest) s ≡ none
unfolding is_upper
found-nul rest s u = ground (arith, found-cons 0 rest s)

name_ne-letter : (n o : ℕ) → is_upper n ≡ true → is_letter o ≡ true → (n == o) ≡ false
unfolding is_upper is_letter
name_ne-letter n o u l = ground arith

upper_ne-zero : (n : ℕ) → is_upper n ≡ true → (n == 0) ≡ false
unfolding is_upper
upper_ne-zero n u = ground arith

cfg_is_option-found :
    (o : Bytes) (s c : ℕ)
    → cfg_is_option o s c
      ≡ elim (found o s) [ none ↦ false | some p ↦ letter_in (strcspn p (codes " \t")) p c ]
unfolding cfg_is_option found
cfg_is_option-found o s c = ground arith

found-behind :
    (ws : List Setting) (rest : Bytes) (s : ℕ)
    → is_upper s ≡ true
    → found (behind ws rest) s ≡ found (render ws rest) s
unfolding behind render is_upper
found-behind [] rest s u = refl
found-behind (w ∷ ws) rest s u =
    ground (arith, found-cons b' ' (w.name ∷ (w.letters ++ behind ws rest)) s)

-- The search for a capital skips the letters of a word.
found-letters :
    (l : Bytes) (ws : List Setting) (rest : Bytes) (s : ℕ)
    → all is_letter l ≡ true
    → is_upper s ≡ true
    → found (l ++ behind ws rest) s ≡ found (render ws rest) s
unfolding is_letter is_upper all
found-letters [] ws rest s h u = found-behind ws rest s u
found-letters (c ∷ l) ws rest s h u =
    ground (arith, found-cons c (l ++ behind ws rest) s, found-letters l ws rest s)

-- In the word that was found, the scan sees its letters and stops behind them.
letter_in-letters :
    (l : Bytes) (ws : List Setting) (rest : Bytes) (o : ℕ)
    → all is_letter l ≡ true
    → letter_in (strcspn (l ++ behind ws rest) (codes " \t")) (l ++ behind ws rest) o ≡ has l o
unfolding is_letter all letter_in strcspn has behind
letter_in-letters [] [] rest o h = refl
letter_in-letters [] (w ∷ ws) rest o h = refl
letter_in-letters (c ∷ l) ws rest o h = ground (arith, letter_in-letters l ws rest o)

-- The answer for a word at the front.
letter_in-word :
    (w : Setting) (ws : List Setting) (rest : Bytes) (o : ℕ)
    → is_upper w.name ≡ true
    → all is_letter w.letters ≡ true
    → letter_in
        (strcspn (w.name ∷ (w.letters ++ behind ws rest)) (codes " \t"))
        (w.name ∷ (w.letters ++ behind ws rest))
        o
      ≡ (w.name == o || has w.letters o)
unfolding is_upper letter_in strcspn has
letter_in-word w ws rest o u h = ground (arith, letter_in-letters w.letters ws rest o h)

-- For an option string of well-formed settings with one blank between two, like the default, a capital letter and
-- an option letter, `cfg_is_option` answers whether the first word of that setting has the letter.
pub cfg_is_option-render :
    (ws : List Setting) (rest : Bytes) (s o : ℕ)
    → is_settings ws ≡ true
    → is_upper s ≡ true
    → is_letter o ≡ true
    → cfg_is_option (render ws rest) s o ≡ in_letters (letters_of ws s) o
unfolding is_settings render letters_of in_letters
cfg_is_option-render [] rest s o h u l = rw (cfg_is_option-found, found-nul rest s u)
cfg_is_option-render (w ∷ ws) rest s o h u l = ground (
  arith,
  cfg_is_option-found (w.name ∷ (w.letters ++ behind ws rest)) s o,
  cfg_is_option-found (render ws rest) s o,
  found-cons w.name (w.letters ++ behind ws rest) s,
  found-letters w.letters ws rest s,
  letter_in-word w ws rest o,
  name_ne-letter w.name o,
  upper_ne-zero w.name,
  cfg_is_option-render ws rest s o,
)

-- The character behind the capital: the first option letter, or the blank or NUL behind a word without.
unfoldable pub first_letter : Bytes → List Setting → ℕ
first_letter [] [] = 0
first_letter [] (w ∷ ws) = b' '
first_letter (c ∷ l) ws = c

unfoldable pub first_letter_of : List Setting → ℕ → Option ℕ
first_letter_of [] s = none
first_letter_of (w ∷ ws) s =
    if w.name == s then some (first_letter w.letters ws) else first_letter_of ws s

first_letter-append :
    (l : Bytes) (ws : List Setting) (rest : Bytes)
    → get_or (l ++ behind ws rest) 0 0 ≡ first_letter l ws
unfolding first_letter behind
first_letter-append [] [] rest = refl
first_letter-append [] (w ∷ ws) rest = refl
first_letter-append (c ∷ l) ws rest = refl

get_or-drop : (k j : ℕ) (o : Bytes) → get_or (drop k o) j 0 ≡ get_or o (k + j) 0
get_or-drop zero j o = ap (λ n. get_or o n 0) (omega arith)
get_or-drop (suc k) j [] = refl
get_or-drop (suc k) j (c ∷ o) =
    let e : suc (k + j) ≡ suc k + j = omega arith in
    get_or-drop k j o ∙ ap (λ n. get_or (c ∷ o) n 0) e

cfg_get_option-found :
    (o : Bytes) (s : ℕ)
    → Option.map (λ k. get_or o k 0) (cfg_get_option o s)
      ≡ Option.map (λ p. get_or p 1 0) (found o s)
unfolding cfg_get_option found
cfg_get_option-found o s = go (strchr o s)
  where
    go :
        (r : Option ℕ)
        → Option.map (λ k. get_or o k 0) (Option.map suc r)
          ≡ Option.map (λ p. get_or p 1 0) (Option.map (λ k. drop k o) r)
    go none = refl
    go (some k) = ap some (ap (λ n. get_or o n 0) (omega arith) ∙ sym (get_or-drop k 1 o))

found-render :
    (ws : List Setting) (rest : Bytes) (s : ℕ)
    → is_settings ws ≡ true
    → is_upper s ≡ true
    → Option.map (λ p. get_or p 1 0) (found (render ws rest) s) ≡ first_letter_of ws s
unfolding is_settings render first_letter_of
found-render [] rest s h u = rw (found-nul rest s u)
found-render (w ∷ ws) rest s h u = ground (
  arith,
  found-cons w.name (w.letters ++ behind ws rest) s,
  found-letters w.letters ws rest s,
  upper_ne-zero w.name,
  first_letter-append w.letters ws rest,
  found-render ws rest s,
)

-- For well-formed settings and a capital letter, `cfg_get_option` points at the first option letter of
-- the first word of that setting, or behind a word with no letters, and answers NULL where
-- there is no such word.
pub cfg_get_option-render :
    (ws : List Setting) (rest : Bytes) (s : ℕ)
    → is_settings ws ≡ true
    → is_upper s ≡ true
    → Option.map (λ k. get_or (render ws rest) k 0) (cfg_get_option (render ws rest) s)
      ≡ first_letter_of ws s
cfg_get_option-render ws rest s h u =
    cfg_get_option-found (render ws rest) s ∙ found-render ws rest s h u
