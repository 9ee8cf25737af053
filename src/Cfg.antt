-- ===== src/Cfg.antt =====
-- The boot options of cfg.c: the static buffer, its initialisation from the firmware's option
-- string, and the queries on it. The buffer is the list of its 128 bytes, so an access outside it is
-- a fault, `none`. With it, `strspn` and `strcspn` of libc/string.c, on the bytes of a buffer.
pub mod Trim
pub mod Init
pub mod Lookup
mod Tests
use mathlib.Core.Option
use bboot.Base.{
  ℕ, zero, suc, ◌+◌, ◌-◌, Bool, true, false, ◌||◌, [], ◌∷◌, ◌++◌, Option, none, some, ◌==◌,
  if◌then◌else◌, Bytes, codes, length, get_or, set, take, drop,
}

-- `strchr(a, c) != NULL` for a string given by its bytes and a `c` that is not 0.
unfoldable pub has : Bytes → ℕ → Bool
has [] c = false
has (x ∷ a) c = x == c || has a c

-- `strlen` of the string that starts a buffer; the end of the list ends it too.
pub strlen : Bytes → ℕ
strlen [] = 0
strlen (c ∷ s) = if c == 0 then 0 else suc (strlen s)

-- `strchr(s, c)` as an offset, for a `c` that is not 0.
unfoldable pub strchr : Bytes → ℕ → Option ℕ
strchr [] c = none
strchr (x ∷ s) c = if x == c then some 0 else if x == 0 then none else Option.map suc (strchr s c)

pub strspn : Bytes → Bytes → ℕ
strspn [] a = 0
strspn (c ∷ s) a = if c == 0 then 0 else if has a c then suc (strspn s a) else 0

unfoldable pub strcspn : Bytes → Bytes → ℕ
strcspn [] r = 0
strcspn (c ∷ s) r = if c == 0 then 0 else if has r c then 0 else suc (strcspn s r)

-- The string that a buffer holds.
pub string : Bytes → Bytes
string [] = []
string (c ∷ s) = if c == 0 then [] else c ∷ string s

abbrev pub options_size : ℕ
options_size = 128

abbrev pub default_opts : Bytes
default_opts = codes "Os V5 Apb"

-- `strcpy(options, s)` and the firmware's copy: the first bytes of the buffer are overwritten.
pub overwrite : Bytes → Bytes → Bytes
overwrite options s = s ++ drop (length s) options

abbrev pub blank : ℕ → Bool
blank c = c == b' ' || c == b'\t'

unfoldable pub blank_or_eol : ℕ → Bool
blank_or_eol c = c == b' ' || c == b'\t' || c == b'\r' || c == b'\n'

-- `for (i = n; i && …; i--)`: the index where the loop stops.
pub last_kept : Bytes → ℕ → ℕ
last_kept options zero = 0
last_kept options (suc i) = elim (blank_or_eol (get_or options (suc i) 0)) [
  | true ↦ last_kept options i
  | false ↦ suc i
]

-- `memmove(options, &options[n], strlen(options) - n + 1)` under its test.
unfoldable pub drop_lead : Bytes → ℕ → Bytes
drop_lead options n =
    if n == 0
    then options
    else let k = strlen options - n + 1 in take k (drop n options) ++ drop k options

-- The end of `cfg_init`, on the string's length. With an empty string the loop starts at index -1
-- and reads `options[-1]`: a fault.
unfoldable pub drop_trail : Bytes → ℕ → Option Bytes
unfolding last_kept blank_or_eol
drop_trail options zero = none
drop_trail options (suc n) =
    let i = last_kept options n in some (if i == n then options else set options (i + 1) 0)

-- What the firmware's call answers: `none` for a negative result, and the bytes that it stored.
pub record Answer : Type 0 where
  pub result : Option ℕ
  pub stored : Bytes

abbrev pub positive : Option ℕ → Bool
positive none = false
positive (some zero) = false
positive (some (suc n)) = true

-- The buffer after the firmware's call and, if that failed, the copy of the defaults.
unfoldable pub load_options : Answer → Bytes → Bytes
load_options a options =
    let got = overwrite options a.stored in
    if positive a.result then got else overwrite got (default_opts ++ (0 ∷ []))

unfoldable pub cfg_init : Answer → Bytes → Option Bytes
cfg_init a options =
    let loaded = load_options a options in
    let moved = drop_lead loaded (strspn loaded (codes " \t")) in drop_trail moved (strlen moved)

-- An offset into `options` in place of the pointer.
unfoldable pub cfg_get_option : Bytes → ℕ → Option ℕ
unfolding strchr
cfg_get_option options s = Option.map suc (strchr options s)

-- `for (i = 0; i < n; i++, p++) if (*p == o) return 1;`
unfoldable pub letter_in : ℕ → Bytes → ℕ → Bool
letter_in zero p o = false
letter_in (suc n) [] o = false
letter_in (suc n) (x ∷ p) o = x == o || letter_in n p o

unfoldable pub cfg_is_option : Bytes → ℕ → ℕ → Bool
unfolding strchr strcspn letter_in
cfg_is_option options s o = elim (strchr options s) [
  | none ↦ false
  | some k ↦ letter_in (strcspn (drop k options) (codes " \t")) (drop k options) o
]
