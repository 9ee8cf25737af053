-- ===== src/Layout/Lines.antt =====
-- A text that is made of lines is scanned line by line.
use bboot.Base.{
  ℕ, ◌<◌, ◌≢◌, Bool, true, not, ◌&&◌, ◌||◌, List, [], ◌∷◌, ◌++◌, ◌≡◌, refl, ap, ◌∙◌, some, ◌==◌,
  ==_ne, Bytes, arith, Bool-cases, inl, inr,
}
use bboot.Layout.{spc_or_cr, skip_lead, upto_end, scan, line, ended}

-- The bytes of a line: no NUL, and no line end.
abbrev pub IsLine : Bytes → Type 0
IsLine [] = Unit {0}
IsLine (c ∷ p) = (c ≢ 0) × (c ≢ b'\n') × IsLine p

unfoldable pub unlines : List Bytes → Bytes
unlines [] = []
unlines (p ∷ ls) = p ++ (b'\n' ∷ unlines ls)

abbrev pub AllLines : List Bytes → Type 0
AllLines [] = Unit {0}
AllLines (p ∷ ls) = IsLine p × AllLines ls

upto_end-line : (p after : Bytes) → IsLine p → upto_end (p ++ (b'\n' ∷ after)) ≡ some (p, after)
unfolding upto_end
upto_end-line [] after h = refl
upto_end-line (c ∷ p) after h = rw (==_ne c 0 h.0, ==_ne c b'\n' h.1, upto_end-line p after h.2)

skip_lead-line :
    (p after : Bytes) → skip_lead (p ++ (b'\n' ∷ after)) ≡ skip_lead p ++ (b'\n' ∷ after)
unfolding skip_lead
skip_lead-line [] after = refl
skip_lead-line (c ∷ p) after = ground (arith, skip_lead-line p after)

skip_lead-IsLine : (p : Bytes) → IsLine p → IsLine (skip_lead p)
unfolding skip_lead
skip_lead-IsLine [] h = tt
skip_lead-IsLine (c ∷ p) h = elim (Bool-cases (spc_or_cr c)) [
  | inl e ↦ rw e (skip_lead-IsLine p h.2)
  | inr e ↦ rw e h
]

scan-line_empty : (left : ℕ) (after : Bytes) → 0 < left → scan left (b'\n' ∷ after) ≡ line [] after
unfolding scan skip_lead upto_end spc_or_cr
scan-line_empty left after l = rw (==_ne left 0 (omega (arith, l)))

-- A round takes one line, without the blanks in front of it.
pub scan-line :
    (left : ℕ) (p after : Bytes)
    → IsLine p
    → 0 < left
    → scan left (p ++ (b'\n' ∷ after)) ≡ line (skip_lead p) after
unfolding scan
scan-line left [] after h l = scan-line_empty left after l ∙ ap (λ p. line p after) nothing
  where
    nothing : [] ≡ skip_lead []
    nothing = unfold skip_lead in refl
scan-line left (c ∷ p) after h l = rw (
  ==_ne left 0 (omega (arith, l)),
  ==_ne c 0 h.0,
  skip_lead-line (c ∷ p) after,
  upto_end-line (skip_lead (c ∷ p)) after (skip_lead-IsLine (c ∷ p) h),
)

pub scan-ended : (text : Bytes) → scan 0 text ≡ ended
unfolding scan
scan-ended [] = refl
scan-ended (c ∷ text) = refl

-- The same as tests.
unfoldable pub is_line : Bytes → Bool
is_line [] = true
is_line (c ∷ p) = not (c == 0 || c == b'\n') && is_line p

unfoldable pub all_lines : List Bytes → Bool
all_lines [] = true
all_lines (p ∷ ls) = is_line p && all_lines ls

is_line-IsLine : (p : Bytes) → is_line p ≡ true → IsLine p
unfolding is_line
is_line-IsLine [] e = tt
is_line-IsLine (c ∷ p) e =
    (ground (arith, e), ground (arith, e), is_line-IsLine p (ground (arith, e)))

pub all_lines-AllLines : (ls : List Bytes) → all_lines ls ≡ true → AllLines ls
unfolding all_lines
all_lines-AllLines [] e = tt
all_lines-AllLines (p ∷ ls) e =
    (is_line-IsLine p (ground (arith, e)), all_lines-AllLines ls (ground (arith, e)))
