-- ===== src/Layout.antt =====
-- The text of a Kicklayout file, as the loop of `boot_aos_zipkick` in boot_aos.c scans it: lines,
-- keywords and arguments. A position in the text is the bytes from it on.
pub mod Lines
mod Tests
use bboot.Base.{
  ℕ, suc, ◌-◌, ◌<◌, Bool, true, false, ◌&&◌, ◌||◌, Option, none, some, [], ◌∷◌, ◌==◌, if◌then◌else◌,
  Bytes, get_or, drop, length,
}

-- `SPCORTAB`
abbrev pub spc_or_tab : ℕ → Bool
spc_or_tab c = c == b' ' || c == b'\t'

-- `SPCORTAB(q) || *q == '\r'`
unfoldable pub spc_or_cr : ℕ → Bool
spc_or_cr c = c == b' ' || c == b'\t' || c == b'\r'

-- `while (SPCORTAB(p) || *p == '\r') p++;`
unfoldable pub skip_lead : Bytes → Bytes
unfolding spc_or_cr
skip_lead [] = []
skip_lead (c ∷ t) = if spc_or_cr c then skip_lead t else c ∷ t

-- `end = strchr(p, '\n')`: the bytes up to it and those behind it, or NULL.
unfoldable pub upto_end : Bytes → Option (Bytes × Bytes)
upto_end [] = none
upto_end (c ∷ t) =
    let rest = upto_end t in
    if c == 0
    then none
    else if c == b'\n'
    then some ([], t)
    else elim rest [ none ↦ none | some (p, after) ↦ some (c ∷ p, after) ]

-- The loop over `q` from the end of the line, and the NUL that is put behind it: the first byte
-- is always kept.
unfoldable pub trim_tail : Bytes → Bytes
unfolding spc_or_cr
trim_tail [] = []
trim_tail (c ∷ t) = elim (trim_tail t) [
  | [] ↦ if spc_or_cr c then [] else c ∷ []
  | d ∷ r ↦ c ∷ d ∷ r
]

unfoldable pub trim_line : Bytes → Bytes
unfolding trim_tail
trim_line [] = []
trim_line (c ∷ t) = c ∷ trim_tail t

-- `!strncmp(p, str, len)` for a word of that length, none of whose bytes is 0.
unfoldable pub starts : Bytes → Bytes → Bool
starts [] p = true
starts (d ∷ w) [] = false
starts (d ∷ w) (c ∷ p) = c == d && starts w p

-- `KEYWORD(p, str, len)` on a string; a byte behind its end is the NUL.
unfoldable pub keyword : Bytes → Bytes → Bool
unfolding starts
keyword p w = starts w p && spc_or_tab (get_or p (length w) 0)

-- `for (; SPCORTAB(p); p++);`
unfoldable pub skip_blanks : Bytes → Bytes
skip_blanks [] = []
skip_blanks (c ∷ t) = if spc_or_tab c then skip_blanks t else c ∷ t

-- `p += len` and the loop behind it.
unfoldable pub argument : ℕ → Bytes → Bytes
unfolding skip_blanks
argument n p = skip_blanks (drop n p)

unfoldable pub has_slash : Bytes → Bool
has_slash [] = false
has_slash (c ∷ t) = c == b'/' || has_slash t

-- `name = strrchr(path, '/'); if (name) name++; else name = path;`
unfoldable pub base_name : Bytes → Bytes
unfolding has_slash
base_name [] = []
base_name (c ∷ t) = if has_slash t then base_name t else if c == b'/' then t else c ∷ t

-- What the start of a round finds, with `left` bytes of the file's text from `p` on: the end, a
-- text with no line end, or a line and what follows it.
pub data Scan : Type 0 where
  ended unterminated : Scan
  line : Bytes → Bytes → Scan

abbrev pub to_scan : Option (Bytes × Bytes) → Scan
to_scan none = unterminated
to_scan (some (p, after)) = line p after

unfoldable pub scan : ℕ → Bytes → Scan
unfolding skip_lead upto_end
scan left [] = ended
scan left (c ∷ t) = if left == 0 || c == 0 then ended else to_scan (upto_end (skip_lead (c ∷ t)))

-- `*p == ';' || *p == '\n'`: the round goes on with the next line.
unfoldable pub no_command : Bytes → Bool
no_command [] = true
no_command (c ∷ p) = c == b';'
