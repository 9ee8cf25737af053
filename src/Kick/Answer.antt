-- ===== src/Kick/Answer.antt =====
-- What `boot_aos_zipkick` of boot_aos.c answers where it does not fail.
use bboot.Base.{ℕ, ◌≢◌, ◌≡◌, false, ◌||◌, ◌==◌, arith, Bool-cases, inl, inr}
use bboot.Zip.{Puff}
use bboot.Action.{Machine, Result, ok, err, ◌>>=◌, bind_ensures_all}
use bboot.Kick.{Board, Cursor, is_empty_list, find_archive, follow_layout, answer, boot_aos_zipkick}

-- A list that is there and holds a module, where there is an answer.
abbrev pub HasModule {ℓ} : {S : Type ℓ} → Result (ℕ × ℕ) × Machine S → Type 0
HasModule (ok (list, avail), m) = (list ≢ 0) × (is_empty_list list m.mem ≡ false)
HasModule (err e, m) = Unit {0}

module _ {ℓ} {S : Type ℓ} (board : Board S) (puff : Puff) where
  answer-HasModule : (k : Cursor) (m : Machine S) → HasModule (answer board puff k m)
  unfolding answer
  answer-HasModule k m = elim (Bool-cases (k.kicklist == 0 || is_empty_list k.kicklist m.mem)) [
    | inl e ↦ rw e tt
    | inr e ↦ rw e (ground (arith, e), ground (arith, e))
  ]

  -- Whatever the archive, its layout and the memory hold, an answer of `boot_aos_zipkick` is a list
  -- that is not NULL and has a first module.
  pub boot_aos_zipkick-HasModule :
      (zipdata given config : ℕ) (m : Machine S)
      → HasModule (boot_aos_zipkick board puff zipdata given config m)
  unfolding boot_aos_zipkick
  boot_aos_zipkick-HasModule zipdata given config m =
      bind_ensures_all HasModule (find_archive board puff zipdata given)
        (λ ziplen. follow_layout board puff zipdata config ziplen >>= answer board puff) m
        (λ e m'. tt)
        (λ ziplen m1.
          bind_ensures_all HasModule (follow_layout board puff zipdata config ziplen)
            (answer board puff) m1 (λ e m'. tt) answer-HasModule)
