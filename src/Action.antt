-- ===== src/Action.antt =====
-- What `boot_aos_zipkick` of boot_aos.c and its helpers do, as a monad: they work on the memory, on the
-- archive's `zip_t` and on what the firmware keeps, and give up with a message. A message on the way is
-- output alone and is left out; that of a failure is the error, the first one where there are two.
use bboot.Base.{ℕ, Bool, true, false, Bytes, ◌≡◌, refl}
use bboot.Memory.{Mem}
use bboot.Zip.{Zip}

pub data Failure : Type 0 where
  missing_initrd invalid_zip no_memory not_extracted invalid_name not_loaded no_config : Failure
  not_found : Bytes → Failure
  bad_line : ℕ → Failure

pub record Machine {ℓ} (S : Type ℓ) : Type ℓ where
  pub mem : Mem
  pub zip : Zip
  pub firmware : S

pub data Result {ℓ} (A : Type ℓ) : Type ℓ where
  ok : A → Result A
  err : Failure → Result A

abbrev pub Action {ℓ κ} : Type ℓ → Type κ → Type (ℓ ⊔ κ)
Action S A = Machine S → Result A × Machine S

module _ {ℓ} {S : Type ℓ} where
  -- What follows a success; a failure ends the whole.
  abbrev pub after {κ λ'} :
      {A : Type κ} {B : Type λ'} → (A → Action S B) → Result A × Machine S → Result B × Machine S
  after f (ok x, m) = f x m
  after f (err e, m) = (err e, m)

  infixl 5 ◌>>=◌ ◌>>◌
  abbrev pub ◌>>=◌ {κ λ'} : {A : Type κ} {B : Type λ'} → Action S A → (A → Action S B) → Action S B
  ◌>>=◌ a f m = after f (a m)

  abbrev pub ◌>>◌ {κ λ'} : {A : Type κ} {B : Type λ'} → Action S A → Action S B → Action S B
  a >> b = a >>= λ _. b

  abbrev pub pure {κ} : {A : Type κ} → A → Action S A
  pure x m = (ok x, m)

  abbrev pub raise {κ} : {A : Type κ} → Failure → Action S A
  raise e m = (err e, m)

  abbrev pub require : Bool → Failure → Action S (Unit {0})
  require true e = pure tt
  require false e = raise e

  abbrev pub gets {κ} : {A : Type κ} → (Machine S → A) → Action S A
  gets f m = (ok (f m), m)

  abbrev pub modify : (Mem → Mem) → Action S (Unit {0})
  modify f m = (ok tt, record m { mem = f m.mem })

module _ {ℓ κ λ'} {S : Type ℓ} {A : Type κ} {B : Type λ'} where
  -- Continuations that agree may be exchanged.
  pub bind_cong :
      (a : Action S A) (f g : A → Action S B) (m : Machine S)
      → ((x : A) (m' : Machine S) → f x m' ≡ g x m')
      → (a >>= f) m ≡ (a >>= g) m
  bind_cong a f g m h = go (a m)
    where
      go : (r : Result A × Machine S) → after f r ≡ after g r
      go (ok x, m') = h x m'
      go (err e, m') = refl

  -- The same, where what is known of the first action's result helps.
  pub bind_cong_where {μ} :
      (P : Result A → Type μ) (a : Action S A) (f g : A → Action S B) (m : Machine S)
      → P (a m).0
      → ((x : A) (m' : Machine S) → P (ok x) → f x m' ≡ g x m')
      → (a >>= f) m ≡ (a >>= g) m
  bind_cong_where P a f g m p h = go (a m) p
    where
      go : (r : Result A × Machine S) → P r.0 → after f r ≡ after g r
      go (ok x, m') p = h x m' p
      go (err e, m') p = refl

  pub bind_assoc {μ} :
      {C : Type μ} (a : Action S A) (f : A → Action S B) (g : B → Action S C) (m : Machine S)
      → ((a >>= f) >>= g) m ≡ (a >>= λ x. f x >>= g) m
  bind_assoc a f g m = go (a m)
    where
      go : (r : Result A × Machine S) → after g (after f r) ≡ after (λ x. f x >>= g) r
      go (ok x, m') = refl
      go (err e, m') = refl

  -- A property of every failure, and of what the continuation results in, holds of the whole.
  pub bind_ensures {μ} :
      (P : Result B → Type μ) (a : Action S A) (f : A → Action S B) (m : Machine S)
      → ((e : Failure) → P (err e))
      → ((x : A) (m' : Machine S) → P (f x m').0)
      → P ((a >>= f) m).0
  bind_ensures P a f m h k = go (a m)
    where
      go : (r : Result A × Machine S) → P (after f r).0
      go (ok x, m') = k x m'
      go (err e, m') = h e

  -- The same, of the machine that is left too.
  pub bind_ensures_all {μ} :
      (P : Result B × Machine S → Type μ) (a : Action S A) (f : A → Action S B) (m : Machine S)
      → ((e : Failure) (m' : Machine S) → P (err e, m'))
      → ((x : A) (m' : Machine S) → P (f x m'))
      → P ((a >>= f) m)
  bind_ensures_all P a f m h k = go (a m)
    where
      go : (r : Result A × Machine S) → P (after f r)
      go (ok x, m') = k x m'
      go (err e, m') = h e m'
