-- ===== src/Kick/Rounds.antt =====
-- What the loop over Kicklayout's lines does for the configuration that is asked for.
use bboot.Base.{
  ℕ, zero, suc, ◌+◌, ◌-◌, ◌≤◌, ◌<◌, List, [], ◌∷◌, ◌++◌, ◌≡◌, refl, ap, ◌∙◌, sym, Bytes, length,
  length-append, arith, append_assoc,
}
use bboot.Zip.{Puff}
use bboot.Action.{Machine, Action, ◌>>=◌, pure, bind_cong}
use bboot.Layout.{skip_lead, scan, line}
use bboot.Layout.Lines.{AllLines, unlines, scan-line, scan-ended}
use bboot.Kick.{Board, Cursor, Turn, next_line, stop, visit, kick_lines, follow, kick_round}

module _ {ℓ} {S : Type ℓ} (board : Board S) (puff : Puff) where
  -- The loop on a list of lines.
  unfoldable pub run_lines : ℕ → ℕ → List Bytes → Cursor → Action S Cursor
  run_lines config l [] k = pure k
  run_lines config l (p ∷ ls) k = do
    turn ← visit board puff config l (skip_lead p) k
    follow board puff (run_lines config (l + 1) ls) turn

  follow-cong :
      (f g : Cursor → Action S Cursor)
      → ((k : Cursor) (m : Machine S) → f k m ≡ g k m)
      → (turn : Turn) (m : Machine S) → follow board puff f turn m ≡ follow board puff g turn m
  unfolding follow
  follow-cong f g h (stop k) m = refl
  follow-cong f g h (next_line k) m = h k m

  length-line : (p rest : Bytes) → length (p ++ (b'\n' ∷ rest)) ≡ length p + 1 + length rest
  length-line p rest = omega (arith, length-append p (b'\n' ∷ rest))

  -- Where a file's text ends with a line end and holds no NUL, the loop handles its lines one by one, in
  -- their order, whatever follows the text. There are as many rounds as bytes, or more.
  pub kick_lines-run_lines :
      (config rounds l : ℕ) (ls : List Bytes) (tail : Bytes) (k : Cursor) (m : Machine S)
      → AllLines ls
      → length (unlines ls) ≤ rounds
      → kick_lines board puff config rounds l (length (unlines ls)) (unlines ls ++ tail) k m
        ≡ run_lines config l ls k m
  unfolding kick_lines run_lines unlines kick_round follow
  kick_lines-run_lines config zero l [] tail k m h n = refl
  kick_lines-run_lines config zero l (p ∷ ls) tail k m h n =
      absurd (omega (arith, n, length-line p (unlines ls)))
  kick_lines-run_lines config (suc rounds) l [] tail k m h n =
      ap
        (λ s.
          kick_round board puff config l
            (λ after.
              kick_lines board puff config rounds (l + 1) (0 - (length tail - length after)) after)
            k s m)
        (scan-ended tail)
  kick_lines-run_lines config (suc rounds) l (p ∷ ls) tail k m h n =
      let text = (p ++ (b'\n' ∷ unlines ls)) ++ tail in
      let left = length (p ++ (b'\n' ∷ unlines ls)) in
      let next = λ (after : Bytes).
        kick_lines board puff config rounds (l + 1) (left - (length text - length after)) after in
      let some_left : 0 < left = omega (arith, length-line p (unlines ls)) in
      let found : scan left text ≡ line (skip_lead p) (unlines ls ++ tail) =
        ap (scan left) (sym (append_assoc p (b'\n' ∷ unlines ls) tail))
        ∙ scan-line left p (unlines ls ++ tail) h.0 some_left in
      let left_after : left - (length text - length (unlines ls ++ tail)) ≡ length (unlines ls) =
        omega (
          arith,
          length-line p (unlines ls),
          length-append (p ++ (b'\n' ∷ unlines ls)) tail,
          length-append (unlines ls) tail,
        ) in
      ap (λ s. kick_round board puff config l next k s m) found
      ∙ bind_cong (visit board puff config l (skip_lead p) k)
          (follow board puff (next (unlines ls ++ tail)))
          (follow board puff (run_lines config (l + 1) ls)) m
          (λ turn m'.
            follow-cong (next (unlines ls ++ tail)) (run_lines config (l + 1) ls)
              (λ k' m2.
                ap (λ v. kick_lines board puff config rounds (l + 1) v (unlines ls ++ tail) k' m2)
                  left_after
                ∙ kick_lines-run_lines config rounds (l + 1) ls tail k' m2 h.1
                    (omega (arith, n, length-line p (unlines ls))))
              turn m')
