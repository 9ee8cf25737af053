-- ===== src/Prom/Text.antt =====
-- What `prom_puts` sends to the firmware, compared with the console's `putchars`.
use bboot.Base.{ℕ, zero, suc, [], ◌∷◌, ◌≡◌, refl, ap, ◌∙◌, Bytes, length}
use bboot.Console.{write_all, putchar, after_line, upto_newline, write_line, put_lines, putchars}
use bboot.Console.Lines.{crlf, IsStream, putchars-crlf}
use bboot.Prom.{Client, prom_write_to, write_part, end_part, prom_put_parts, prom_puts}

module _ {ℓ} {S : Type ℓ} (c : Client S) (file : ℕ) where
  write_part-write_line :
      (p : Bytes) (s : S) → write_part c file p s ≡ write_line (prom_write_to c file ∷ []) p s
  unfolding write_part write_line write_all
  write_part-write_line [] s = refl
  write_part-write_line (x ∷ p) s = refl

  prom_put_parts-put_lines :
      (rounds : ℕ) (p : Bytes) (s : S)
      → prom_put_parts c file rounds p s ≡ put_lines (prom_write_to c file ∷ []) rounds p s
  unfolding prom_put_parts put_lines end_part after_line putchar write_all
  prom_put_parts-put_lines zero p s = refl
  prom_put_parts-put_lines (suc rounds) [] s = refl
  prom_put_parts-put_lines (suc rounds) (x ∷ p) s =
      ap (end_part c file (prom_put_parts c file rounds) (upto_newline (x ∷ p)).1)
        (write_part-write_line (upto_newline (x ∷ p)).0 s)
      ∙ go (upto_newline (x ∷ p)).1
          (write_line (prom_write_to c file ∷ []) (upto_newline (x ∷ p)).0 s)
          (λ rest s1. prom_put_parts-put_lines rounds rest s1)
    where
      go :
          (r : Bytes) (s1 : S)
          → ((rest : Bytes) (s2 : S)
              → prom_put_parts c file rounds rest s2
                ≡ put_lines (prom_write_to c file ∷ []) rounds rest s2)
          → end_part c file (prom_put_parts c file rounds) r s1
            ≡ after_line
                (prom_write_to c file ∷ [])
                (put_lines (prom_write_to c file ∷ []) rounds)
                r
                s1
      go [] s1 same = refl
      go (y ∷ rest) s1 same = same rest (prom_write_to c file (13 ∷ 10 ∷ []) s1)

  -- `prom_puts` sends its text to a device with a carriage return before each newline, and nothing else:
  -- the same as one write of that. The device takes bytes in two calls as it does in one.
  pub prom_puts-crlf :
      (p : Bytes) (s : S)
      → IsStream (prom_write_to c file)
      → prom_puts c file p s ≡ prom_write_to c file (crlf p) s
  unfolding prom_puts putchars write_all
  prom_puts-crlf p s h =
      prom_put_parts-put_lines (length p) p s
      ∙ putchars-crlf (prom_write_to c file ∷ []) p s (h, tt, tt)
