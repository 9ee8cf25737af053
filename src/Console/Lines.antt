-- ===== src/Console/Lines.antt =====
-- What reaches the drivers: the text with a carriage return before each newline.
use bboot.Base.{
  Bool, ℕ, zero, suc, ◌+◌, ◌≤◌, inl, inr, true, List, [], ◌∷◌, ◌++◌, ◌≡◌, refl, sym, ap, ◌∙◌, ◌==◌,
  if◌then◌else◌, Bytes, length, arith, Bool-cases,
}
use mathlib.Core.Path.{subst}
use bboot.Console.{
  Driver, write_all, putchar, after_line, upto_newline, write_line, put_lines, putchars, puts,
}

-- The specification.
unfoldable pub crlf : Bytes → Bytes
crlf [] = []
crlf (c ∷ text) = if c == 10 then 13 ∷ 10 ∷ crlf text else c ∷ crlf text

-- Output devices: bytes written in two calls are the same as in one, and what one device is sent
-- does not change what another does.
abbrev pub IsStream {ℓ} : {S : Type ℓ} → Driver S → Type ℓ
IsStream {S = S} out = (s : S) → (out [] s ≡ s) × ((a b : Bytes) → out (a ++ b) s ≡ out b (out a s))

abbrev pub AreIndependent {ℓ} : {S : Type ℓ} → Driver S → List (Driver S) → Type ℓ
AreIndependent {S = S} out [] = Unit
AreIndependent {S = S} out (o ∷ outs) =
    ((a b : Bytes) (s : S) → o a (out b s) ≡ out b (o a s)) × AreIndependent out outs

abbrev pub AreStreams {ℓ} : {S : Type ℓ} → List (Driver S) → Type ℓ
AreStreams [] = Unit
AreStreams (out ∷ outs) = IsStream out × AreIndependent out outs × AreStreams outs

-- One round takes a line and leaves what follows it, from its newline on.
crlf-upto_newline : (text : Bytes) → crlf text ≡ (upto_newline text).0 ++ crlf (upto_newline text).1
unfolding crlf upto_newline
crlf-upto_newline [] = refl
crlf-upto_newline (c ∷ text) = ground (arith, crlf-upto_newline text)

upto_newline-length : (text : Bytes) → length (upto_newline text).1 ≤ length text
unfolding upto_newline
upto_newline-length [] = omega arith
upto_newline-length (c ∷ text) = ground (arith, upto_newline-length text)

-- Nothing, or a newline first.
abbrev FromNewline : Bytes → Type 0
FromNewline [] = Unit {0}
FromNewline (c ∷ rest) = c ≡ 10

upto_newline-FromNewline : (text : Bytes) → FromNewline (upto_newline text).1
unfolding upto_newline
upto_newline-FromNewline [] = tt
upto_newline-FromNewline (c ∷ text) =
    let rest = upto_newline text in
    elim (Bool-cases (c == 10)) [
      | inl e ↦
          subst
            (λ (b : Bool).
              FromNewline
                (if◌then◌else◌ {A = Bytes × Bytes} b ([], c ∷ text) (c ∷ rest.0, rest.1)).1)
            (sym e) (ground (arith, e))
      | inr e ↦
          subst
            (λ (b : Bool).
              FromNewline
                (if◌then◌else◌ {A = Bytes × Bytes} b ([], c ∷ text) (c ∷ rest.0, rest.1)).1)
            (sym e) (upto_newline-FromNewline text)
    ]

module _ {ℓ} {S : Type ℓ} where
  write_all-independent :
      (out : Driver S) (outs : List (Driver S)) (a b : Bytes) (s : S)
      → AreIndependent out outs
      → write_all outs a (out b s) ≡ out b (write_all outs a s)
  unfolding write_all
  write_all-independent out [] a b s h = refl
  write_all-independent out (o ∷ outs) a b s h =
      ap (write_all outs a) (h.0 a b s) ∙ write_all-independent out outs a b (o a s) h.1

  write_all-append :
      (outs : List (Driver S)) (a b : Bytes) (s : S)
      → AreStreams outs
      → write_all outs (a ++ b) s ≡ write_all outs b (write_all outs a s)
  unfolding write_all
  write_all-append [] a b s h = refl
  write_all-append (out ∷ outs) a b s h =
      ap (write_all outs (a ++ b)) ((h.0 s).1 a b)
      ∙ write_all-append outs a b (out b (out a s)) h.2
      ∙ ap (write_all outs b) (write_all-independent out outs a b (out a s) h.1)

  write_all-empty : (outs : List (Driver S)) (s : S) → AreStreams outs → write_all outs [] s ≡ s
  unfolding write_all
  write_all-empty [] s h = refl
  write_all-empty (out ∷ outs) s h = ap (write_all outs []) (h.0 s).0 ∙ write_all-empty outs s h.2

  write_line-write_all :
      (outs : List (Driver S)) (p : Bytes) (s : S)
      → AreStreams outs
      → write_line outs p s ≡ write_all outs p s
  unfolding write_line
  write_line-write_all outs [] s h = sym (write_all-empty outs s h)
  write_line-write_all outs (c ∷ p) s h = refl

  -- A round that is followed by enough of them.
  after_line-write_all :
      (outs : List (Driver S)) (rounds : ℕ) (p r : Bytes) (s : S)
      → AreStreams outs
      → FromNewline r
      → length r ≤ suc rounds
      → ((rest : Bytes) (s1 : S)
          → length rest ≤ rounds
          → put_lines outs rounds rest s1 ≡ write_all outs (crlf rest) s1)
      → after_line outs (put_lines outs rounds) r (write_line outs p s)
        ≡ write_all outs (p ++ crlf r) s
  unfolding after_line crlf putchar
  after_line-write_all outs rounds p [] s h f n next =
      write_line-write_all outs p s h
      ∙ sym (write_all-empty outs (write_all outs p s) h)
      ∙ sym (write_all-append outs p [] s h)
  after_line-write_all outs rounds p (c ∷ rest) s h f n next =
      let newline : (c == 10) ≡ true = ground (arith, f) in
      next rest (write_all outs (13 ∷ 10 ∷ []) (write_line outs p s)) (omega (arith, n))
      ∙ sym (write_all-append outs (13 ∷ 10 ∷ []) (crlf rest) (write_line outs p s) h)
      ∙ ap (write_all outs (13 ∷ 10 ∷ crlf rest)) (write_line-write_all outs p s h)
      ∙ sym (write_all-append outs p (13 ∷ 10 ∷ crlf rest) s h)
      ∙ ap
          (λ (b : Bool). write_all outs (p ++ (if b then 13 ∷ 10 ∷ crlf rest else c ∷ crlf rest)) s)
          (sym newline)

  put_lines-crlf :
      (outs : List (Driver S)) (rounds : ℕ) (text : Bytes) (s : S)
      → AreStreams outs
      → length text ≤ rounds
      → put_lines outs rounds text s ≡ write_all outs (crlf text) s
  unfolding put_lines crlf
  put_lines-crlf outs zero [] s h n = sym (write_all-empty outs s h)
  put_lines-crlf outs zero (c ∷ text) s h n = absurd (omega (arith, n))
  put_lines-crlf outs (suc rounds) [] s h n = sym (write_all-empty outs s h)
  put_lines-crlf outs (suc rounds) (c ∷ text) s h n =
      let parts = upto_newline (c ∷ text) in
      after_line-write_all outs rounds parts.0 parts.1 s h (upto_newline-FromNewline (c ∷ text))
        (omega (arith, upto_newline-length (c ∷ text), n))
        (λ rest s1. put_lines-crlf outs rounds rest s1 h)
      ∙ ap (λ (t : Bytes). write_all outs t s) (sym (crlf-upto_newline (c ∷ text)))

pub putchars-crlf {ℓ} :
    {S : Type ℓ} (outs : List (Driver S)) (text : Bytes) (s : S)
    → AreStreams outs
    → putchars outs text s ≡ write_all outs (crlf text) s
unfolding putchars
putchars-crlf outs text s h = put_lines-crlf outs (length text) text s h (omega arith)

-- `puts` returns the length with its newline, and sends each driver the text with a carriage return before
-- every newline, and then a line end. The drivers are output devices that do not interfere.
pub puts-crlf {ℓ} :
    {S : Type ℓ} (outs : List (Driver S)) (text : Bytes) (s : S)
    → AreStreams outs
    → puts outs text s ≡ (length text + 1, write_all outs (crlf text ++ (13 ∷ 10 ∷ [])) s)
unfolding puts putchar
puts-crlf outs text s h =
    ap (λ (v : _). (length text + 1, v))
      (ap (write_all outs (13 ∷ 10 ∷ [])) (putchars-crlf outs text s h)
        ∙ sym (write_all-append outs (crlf text) (13 ∷ 10 ∷ []) s h))
