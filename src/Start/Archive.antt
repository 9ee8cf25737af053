-- ===== src/Start/Archive.antt =====
-- `start` of bboot.c with `boot_aos_zipkick` of boot_aos.c as the model of that file has it.
use bboot.Base.{ℕ, ◌≢◌, ◌≡◌, sym, ◌∙◌, false, Option, none, some}
use mathlib.Core.Path.{subst}
use bboot.Zip.{Puff}
use bboot.Action.{Result, ok, err}
use bboot.Action
use bboot.Kick
use bboot.Kick.Answer.{HasModule, boot_aos_zipkick-HasModule}
use bboot.Start.{Regs, Brd, Parts, start}
use bboot.Start.Handover.{IsCall, OnCall, OnCall-map, NotCalled, start-IsCall}

-- A failure as the NULL that the caller sees.
unfoldable pub to_option {ℓ} :
    {S : Type ℓ} → Result (ℕ × ℕ) × Action.Machine S → Option (ℕ × ℕ) × Action.Machine S
to_option (ok x, m) = (some x, m)
to_option (err e, m) = (none, m)

-- A list that is not NULL and has a first module.
abbrev pub Holds {ℓ} : {S : Type ℓ} → ℕ → Action.Machine S → Type 0
Holds list m = (list ≢ 0) × (Kick.is_empty_list list m.mem ≡ false)

abbrev Answers {ℓ} : {S : Type ℓ} → Option (ℕ × ℕ) × Action.Machine S → Type 0
Answers (some (list, avail), m) = Holds list m
Answers (none, m) = Unit {0}

to_option-Answers {ℓ} :
    {S : Type ℓ} (r : Result (ℕ × ℕ) × Action.Machine S) → HasModule r → Answers (to_option r)
unfolding to_option
to_option-Answers (ok x, m) h = h
to_option-Answers (err e, m) h = tt

module _ {ℓ} {S : Type ℓ} (board_of : Brd (Action.Machine S) → Kick.Board S) (puff : Puff) where
  -- `boot_aos_zipkick` on a machine; its list and what is free come back together.
  unfoldable pub zipkick :
      Brd (Action.Machine S) → ℕ → ℕ → ℕ → Action.Machine S → Option (ℕ × ℕ) × Action.Machine S
  zipkick brd zipdata ziplen config m =
      to_option (Kick.boot_aos_zipkick (board_of brd) puff zipdata ziplen config m)

  zipkick-Answers :
      (brd : Brd (Action.Machine S)) (zipdata ziplen config : ℕ) (m : Action.Machine S)
      → Answers (zipkick brd zipdata ziplen config m)
  unfolding zipkick
  zipkick-Answers brd zipdata ziplen config m =
      to_option-Answers (Kick.boot_aos_zipkick (board_of brd) puff zipdata ziplen config m)
        (boot_aos_zipkick-HasModule (board_of brd) puff zipdata ziplen config m)

  -- Where the outcome of `start`, with `boot_aos_zipkick` of boot_aos.c, names a call of the loader, the list that it hands over is
  -- not NULL and has a first module in the memory that `boot_aos_zipkick` left.
  pub start-Holds :
      (t : Parts (Action.Machine S)) (r : Regs) (s : Action.Machine S)
      → ((brd : Brd (Action.Machine S)) (zipdata ziplen config : ℕ) (m : Action.Machine S)
          → t.boot_aos_zipkick brd zipdata ziplen config m ≡ zipkick brd zipdata ziplen config m)
      → OnCall t
          (λ call.
            (of : Option _) × (brd : Brd (Action.Machine S)) × (c : IsCall t r of brd call) × Holds
              call.kicklist c.after)
          (NotCalled t r s)
          (start t r s)
  start-Holds t r s same =
      OnCall-map t _ _ _ _
        (λ call h.
          let (of, brd, machine, c) = h in
          (
            of,
            brd,
            c,
            subst Answers (sym (same brd c.addr c.len 1 c.before) ∙ c.list)
                (zipkick-Answers brd c.addr c.len 1 c.before),
          ))
        (λ q. q) (start t r s) (start-IsCall t r s)
