-- ===== src/Start/Handover.antt =====
-- When `start` of bboot.c calls the loader, and with what.
use bboot.Base.{
  Bool, List, Option, ap, arith, false, if◌then◌else◌, inl, inr, none, refl, some, sym, true, ℕ,
  ◌≡◌, ◌≢◌, ◌⊎◌,
}
use bboot.Cfg.{cfg_is_option}
use mathlib.Core.Path.{subst}
use bboot.Console.{Driver}
use bboot.Prom.{Client}
use bboot.Start.{
  Regs, Brd, Call, Outcome, started, came_back, returned, Machine, known, unknown, Parts,
  or_default, find_initrd, find_args, choose_machine, give_up, boot_failed, hand_over, start_exec,
  boot, run, run_on, after_loader, start,
}

-- A call that an archive at an address other than 0 gave the list for, on the machine `brd`, with the
-- arguments that are found once the list is there.
pub record IsCall {ℓ} {S : Type ℓ} (t : Parts S) (r : Regs) (of : Option (Client S)) (brd : Brd S)
    (call : Call) : Type ℓ where
  pub addr : ℕ
  pub len : ℕ
  pub avail : ℕ
  pub before : S
  pub after : S
  pub nonzero : addr ≢ 0
  pub list : t.boot_aos_zipkick brd addr len 1 before ≡ (some (call.kicklist, avail), after)
  pub fn : call.fn ≡ brd.exec_addr
  pub stack : call.stack ≡ brd.stack_top
  pub info : call.info ≡ brd.info
  pub args : call.args ≡ (find_args t of brd r avail after).0

-- That the call which an outcome names is the one the loader was given, and did not return from or
-- returned from, and has a property; and what holds where no call is named.
abbrev pub OnCall {ℓ} : {S : Type ℓ} → Parts S → (Call → Type ℓ) → Type ℓ → Outcome × S → Type ℓ
OnCall t P Q (started call, s) = P call × (t.loader call s ≡ none)
OnCall {S = S} t P Q (came_back call, s) =
    P call × (before : S) × (after : S) × (t.loader call before ≡ some after)
OnCall t P Q (returned, s) = Q

or_default-nonzero : (x : ℕ × ℕ) → (or_default x).0 ≢ 0
unfolding or_default
or_default-nonzero x = ground arith

module _ {ℓ} {S : Type ℓ} (t : Parts S) where
  pub OnCall-map :
      (P P' : Call → Type ℓ) (Q Q' : Type ℓ)
      → ((call : Call) → P call → P' call)
      → (Q → Q')
      → (x : Outcome × S) → OnCall t P Q x
      → OnCall t P' Q' x
  OnCall-map P P' Q Q' f g (started call, s) (h, e) = (f call h, e)
  OnCall-map P P' Q Q' f g (came_back call, s) (h, before, after, e) = (f call h, before, after, e)
  OnCall-map P P' Q Q' f g (returned, s) q = g q

  find_initrd-nonzero :
      (outs : List (Driver S)) (vlvl : ℕ) (of : Option (Client S)) (brd : Brd S) (r : Regs) (s : S)
      → (find_initrd t outs vlvl of brd r s).0.0 ≢ 0
  unfolding find_initrd
  find_initrd-nonzero outs vlvl none brd r s = or_default-nonzero _
  find_initrd-nonzero outs vlvl (some c) brd r s = or_default-nonzero _

  module _ (P : Call → Type ℓ) (Q : Type ℓ) where
    give_up-OnCall : Q → (of : Option (Client S)) (s : S) → OnCall t P Q (give_up t returned of s)
    unfolding give_up
    give_up-OnCall q none s = q
    give_up-OnCall q (some c) s = q

    came_back-OnCall :
        (of : Option (Client S)) (call : Call) (before after s : S)
        → P call
        → t.loader call before ≡ some after
        → OnCall t P Q (give_up t (came_back call) of s)
    unfolding give_up
    came_back-OnCall none call before after s h e = (h, before, after, e)
    came_back-OnCall (some c) call before after s h e = (h, before, after, e)

    either-OnCall :
        (b : Bool) (x y : Outcome × S)
        → OnCall t P Q x
        → (b ≡ false → OnCall t P Q y)
        → OnCall t P Q (if b then x else y)
    either-OnCall true x y h h' = h
    either-OnCall false x y h h' = h' refl

    after_loader-OnCall :
        (outs : List (Driver S)) (of : Option (Client S)) (call : Call) (s : S) (after : Option S)
        → P call
        → t.loader call s ≡ after
        → OnCall t P Q (after_loader t outs of call after s)
    unfolding after_loader boot_failed
    after_loader-OnCall outs of call s none h e = (h, e)
    after_loader-OnCall outs of call s (some s1) h e = came_back-OnCall of call s s1 _ h e

    hand_over-OnCall :
        (outs : List (Driver S)) (of : Option (Client S)) (call : Call) (s : S)
        → P call
        → OnCall t P Q (hand_over t outs of call s)
    unfolding hand_over
    hand_over-OnCall outs of call s h = after_loader-OnCall outs of call s (t.loader call s) h refl

  -- No list was made.
  abbrev pub NoList : Brd S → Type ℓ
  NoList brd =
      (addr : ℕ) × (len : ℕ) × (before : S) × (after : S) × (t.boot_aos_zipkick brd addr len 1
          before
        ≡ (none, after))

  start_exec-OnCall :
      (outs : List (Driver S)) (vlvl : ℕ) (of : Option (Client S)) (brd : Brd S) (r : Regs)
      (addr len : ℕ) (s : S)
      → addr ≢ 0
      → (x : Option (ℕ × ℕ) × S) → t.boot_aos_zipkick brd addr len 1 s ≡ x
      → OnCall t (IsCall t r of brd) (NoList brd) (start_exec t outs vlvl of brd r x)
  unfolding start_exec
  start_exec-OnCall outs vlvl of brd r addr len s nonzero (none, s2) e =
      give_up-OnCall (IsCall t r of brd) (NoList brd) (addr, len, s, s2, e) of s2
  start_exec-OnCall outs vlvl of brd r addr len s nonzero (some (kicklist, avail), s2) e =
      hand_over-OnCall (IsCall t r of brd) (NoList brd) outs of _ _ (record {
        addr = addr;
        len = len;
        avail = avail;
        before = s;
        after = s2;
        nonzero = nonzero;
        list = e;
        fn = refl;
        stack = refl;
        info = refl;
        args = refl;
      })

  boot-OnCall :
      (outs : List (Driver S)) (vlvl : ℕ) (of : Option (Client S)) (brd : Brd S) (r : Regs) (s : S)
      → OnCall t (IsCall t r of brd) (NoList brd) (boot t outs vlvl of brd r s)
  unfolding boot
  boot-OnCall outs vlvl of brd r s =
      start_exec-OnCall outs vlvl of brd r _ _ _ (find_initrd-nonzero outs vlvl of brd r s) _ refl

  -- The options do not ask for booting, or no list was made.
  abbrev pub NotBooted : Option (Client S) → Brd S → S → Type ℓ
  NotBooted of brd s = (cfg_is_option (t.cfg_init of s).0 b'A' b'b' ≡ false) ⊎ NoList brd

  run-OnCall :
      (r : Regs) (of : Option (Client S)) (brd : Brd S) (s : S)
      → OnCall t (IsCall t r of brd) (NotBooted of brd s) (run t r of brd s)
  unfolding run boot_failed
  run-OnCall r of brd s =
      either-OnCall (IsCall t r of brd) (NotBooted of brd s) _ _ _
        (OnCall-map (IsCall t r of brd) _ (NoList brd) _ (λ call h. h) inr _
          (boot-OnCall _ _ of brd r _))
        (λ e. give_up-OnCall (IsCall t r of brd) (NotBooted of brd s) (inl e) of _)

  -- The machine that `start` finds.
  abbrev pub IsMachine : Regs → S → Option (Client S) → Brd S → Type ℓ
  IsMachine r s of brd = (choose_machine t r s).0 ≡ known of brd

  -- A call on that machine.
  abbrev pub Called : Regs → S → Call → Type ℓ
  Called r s call =
      (of : Option (Client S)) × (brd : Brd S) × IsMachine r s of brd × IsCall t r of brd call

  -- The machine is not known, or not booted.
  abbrev pub NotCalled : Regs → S → Type ℓ
  NotCalled r s =
      ((c : Client S) × ((choose_machine t r s).0 ≡ unknown c))
      ⊎ ((of : Option (Client S)) × (brd : Brd S) × IsMachine r s of brd
          × NotBooted of brd (choose_machine t r s).1)

  run_on-OnCall :
      (r : Regs) (s : S) (x : Machine S × S)
      → choose_machine t r s ≡ x
      → OnCall t (Called r s) (NotCalled r s) (run_on t r x)
  unfolding run_on
  run_on-OnCall r s (known of brd, s1) e =
      let machine = ap (λ (x : Machine S × S). x.0) e in
      let before : s1 ≡ (choose_machine t r s).1 = sym (ap (λ (x : Machine S × S). x.1) e) in
      OnCall-map (IsCall t r of brd) _ (NotBooted of brd s1) _ (λ call h. (of, brd, machine, h))
        (λ q. inr (of, brd, machine, subst (NotBooted of brd) before q)) (run t r of brd s1)
        (run-OnCall r of brd s1)
  run_on-OnCall r s (unknown c, s1) e =
      give_up-OnCall _ _ (inl (c, ap (λ (x : Machine S × S). x.0) e)) (some c) s1

  -- A call that `start` ends in, or that came back, is one that the loader was given; its list is what
  -- `boot_aos_zipkick` answered on the machine that was found, for an archive at an address other than 0, its address,
  -- stack and information are the machine's, and its arguments are those found behind the modules. Where `start`
  -- ends without a call, the machine is not known, its options do not ask for booting, or `boot_aos_zipkick` answered
  -- NULL.
  pub start-IsCall : (r : Regs) (s : S) → OnCall t (Called r s) (NotCalled r s) (start t r s)
  unfolding start
  start-IsCall r s = run_on-OnCall r s (choose_machine t r s) refl
