-- ===== src/Base/Result.antt =====
-- The outcome of a call: a value, an error value, a panic, or fuel that ran out (no outcome of the
-- code). Also the simulation of one computation by another.
use mathlib.Core.Path.{◌≡◌, refl, subst}
use mathlib.Core.Bool.{Bool, true, false}
use ceno_reth_benchmark.Base.Tests.{if◌then◌else◌}
use mathlib.Core.Option.{Option, none, some}

pub data Result {ℓ} (E A : Type ℓ) : Type ℓ where
  ok : A → Result E A
  err : E → Result E A
  panic : Result E A
  stuck : Result E A

infixl 5 ◌>>=◌
abbrev pub ◌>>=◌ {ℓ} : {E A B : Type ℓ} → Result E A → (A → Result E B) → Result E B
ok a >>= f = f a
err e >>= f = err e
panic >>= f = panic
stuck >>= f = stuck

-- `unwrap`, and an index into a slice: `none` is a panic.
abbrev pub unwrap {ℓ} : {E A : Type ℓ} → Option A → Result E A
unwrap none = panic
unwrap (some a) = ok a

-- Both end the same way, and their values are related. `stuck` is related to nothing.
pub data Sim {E A B : Type 0} (P : A → B → Type 0) : Result E A → Result E B → Type 0 where
  sim_ok : {a : A} {b : B} → P a b → Sim P (ok a) (ok b)
  sim_err : {e : E} → Sim P (err e) (err e)
  sim_panic : Sim P panic panic

module _ {E A B : Type 0} {P : A → B → Type 0} where
  pub bind :
      {C D : Type 0} {Q : C → D → Type 0} {r : Result E A} {s : Result E B} {k : A → Result E C}
      {l : B → Result E D}
      → Sim P r s
      → ((a : A) (b : B) → P a b → Sim Q (k a) (l b))
      → Sim Q (r >>= k) (s >>= l)
  bind (sim_ok p) next = next _ _ p
  bind sim_err next = sim_err
  bind sim_panic next = sim_panic

-- A simulated success is a success, with a related value.
abbrev pub OkWith : {E A B : Type 0} → (A → B → Type 0) → Result E A → Result E B → Type 0
OkWith P r (ok b) = (a : _) × (r ≡ ok a) × P a b
OkWith P r _ = Unit {0}

pub OkWith_lem :
    {E A B : Type 0} {P : A → B → Type 0} {r : Result E A} {s : Result E B}
    → Sim P r s
    → OkWith P r s
OkWith_lem (sim_ok p) = (_, refl, p)
OkWith_lem sim_err = tt
OkWith_lem sim_panic = tt

-- What holds of the value, if there is one.
pub data Ensures {E A : Type 0} (P : A → Type 0) : Result E A → Type 0 where
  on_ok : {a : A} → P a → Ensures P (ok a)
  on_err : {e : E} → Ensures P (err e)
  on_panic : Ensures P panic
  on_stuck : Ensures P stuck

module _ {E A : Type 0} {P : A → Type 0} where
  pub ensures_ok : {a : A} → Ensures {E = E} P (ok a) → P a
  ensures_ok (on_ok p) = p

  pub Ensures-bind :
      {B : Type 0} {Q : B → Type 0} {r : Result E A} {k : A → Result E B}
      → Ensures P r
      → ((a : A) → P a → Ensures Q (k a))
      → Ensures Q (r >>= k)
  Ensures-bind (on_ok p) next = next _ p
  Ensures-bind on_err next = on_err
  Ensures-bind on_panic next = on_panic
  Ensures-bind on_stuck next = on_stuck

  pub Ensures-mono :
      {Q : A → Type 0} {r : Result E A} → Ensures P r → ((a : A) → P a → Q a) → Ensures Q r
  Ensures-mono (on_ok p) weaken = on_ok (weaken _ p)
  Ensures-mono on_err weaken = on_err
  Ensures-mono on_panic weaken = on_panic
  Ensures-mono on_stuck weaken = on_stuck

pub Ensures-both :
    {E A : Type 0} {P Q : A → Type 0} {r : Result E A}
    → Ensures P r
    → Ensures Q r
    → Ensures (λ a. P a × Q a) r
Ensures-both (on_ok p) (on_ok q) = on_ok (p, q)
Ensures-both on_err q = on_err
Ensures-both on_panic q = on_panic
Ensures-both on_stuck q = on_stuck

-- A simulation, with what is known of the simulated value.
pub Sim-both :
    {E A B : Type 0} {P : A → B → Type 0} {Q : B → Type 0} {r : Result E A} {s : Result E B}
    → Sim P r s
    → Ensures Q s
    → Sim (λ a b. P a b × Q b) r s
Sim-both (sim_ok p) (on_ok q) = sim_ok (p, q)
Sim-both sim_err q = sim_err
Sim-both sim_panic q = sim_panic

-- The call returns: a value with a property, or an error that is expected. It does not panic, and
-- fuel does not run out.
pub data Returns {E A : Type 0} (P : A → Type 0) (Q : E → Type 0) : Result E A → Type 0 where
  returns : {a : A} → P a → Returns P Q (ok a)
  refuses : {e : E} → Q e → Returns P Q (err e)

module _ {E A : Type 0} {P : A → Type 0} {Q : E → Type 0} where
  pub Returns-bind :
      {B : Type 0} {R : B → Type 0} {r : Result E A} {k : A → Result E B}
      → Returns P Q r
      → ((a : A) → P a → Returns R Q (k a))
      → Returns R Q (r >>= k)
  Returns-bind (returns p) next = next _ p
  Returns-bind (refuses q) next = refuses q

  pub Returns-both :
      {R : A → Type 0} {r : Result E A} → Returns P Q r → Ensures R r → Returns (λ a. P a × R a) Q r
  Returns-both (returns p) (on_ok q) = returns (p, q)
  Returns-both (refuses q) on_err = refuses q

  pub Returns-mono :
      {R : A → Type 0} {S : E → Type 0} {r : Result E A}
      → Returns P Q r
      → ((a : A) → P a → R a)
      → ((e : E) → Q e → S e)
      → Returns R S r
  Returns-mono (returns p) f g = returns (f _ p)
  Returns-mono (refuses q) f g = refuses (g _ q)

-- What returns when it is simulated by what returns.
pub Returns-Sim :
    {E A B : Type 0} {P : A → B → Type 0} {R : B → Type 0} {Q : E → Type 0} {r : Result E A}
    {s : Result E B}
    → Sim P r s
    → Returns R Q s
    → Returns (λ a. (b : B) × P a b × R b) Q r
Returns-Sim (sim_ok p) (returns q) = returns (_, p, q)
Returns-Sim sim_err (refuses q) = refuses q
Returns-Sim sim_panic h = elim h [ ]

-- The call ends, whichever way: its fuel does not run out. A value has the property.
pub data Halts {E A : Type 0} (P : A → Type 0) : Result E A → Type 0 where
  halts_ok : {a : A} → P a → Halts P (ok a)
  halts_err : {e : E} → Halts P (err e)
  halts_panic : Halts P panic

module _ {E A : Type 0} {P : A → Type 0} where
  pub Halts-bind :
      {B : Type 0} {Q : B → Type 0} {r : Result E A} {k : A → Result E B}
      → Halts P r
      → ((a : A) → P a → Halts Q (k a))
      → Halts Q (r >>= k)
  Halts-bind (halts_ok p) next = next _ p
  Halts-bind halts_err next = halts_err
  Halts-bind halts_panic next = halts_panic

  pub Halts-mono : {Q : A → Type 0} {r : Result E A} → Halts P r → ((a : A) → P a → Q a) → Halts Q r
  Halts-mono (halts_ok p) weaken = halts_ok (weaken _ p)
  Halts-mono halts_err weaken = halts_err
  Halts-mono halts_panic weaken = halts_panic

  pub Halts-ok : {r : Result E A} {a : A} → Halts P r → r ≡ ok a → P a
  Halts-ok (halts_ok p) e = subst P (cc) p
  Halts-ok halts_err e = cc
  Halts-ok halts_panic e = cc

  pub Halts-if :
      (b : Bool) {x y : Result E A}
      → (b ≡ true → Halts P x)
      → (b ≡ false → Halts P y)
      → Halts P (if b then x else y)
  Halts-if true hx hy = hx refl
  Halts-if false hx hy = hy refl

pub Ensures-any : {E A : Type 0} (r : Result E A) → Ensures (λ a. Unit {0}) r
Ensures-any (ok a) = on_ok tt
Ensures-any (err e) = on_err
Ensures-any panic = on_panic
Ensures-any stuck = on_stuck

pub Ensures-if :
    {E A : Type 0} {P : A → Type 0} (b : Bool) {x y : Result E A}
    → (b ≡ true → Ensures P x)
    → (b ≡ false → Ensures P y)
    → Ensures P (if b then x else y)
Ensures-if true hx hy = hx refl
Ensures-if false hx hy = hy refl

pub Halts-Ensures : {E A : Type 0} {P : A → Type 0} {r : Result E A} → Halts P r → Ensures P r
Halts-Ensures (halts_ok p) = on_ok p
Halts-Ensures halts_err = on_err
Halts-Ensures halts_panic = on_panic

-- The rest of a computation may use what the first part was.
pub Ensures-bind_eq :
    {E A B : Type 0} {Q : B → Type 0} (r : Result E A) {k : A → Result E B}
    → ((a : A) → r ≡ ok a → Ensures Q (k a))
    → Ensures Q (r >>= k)
Ensures-bind_eq (ok a) next = next a refl
Ensures-bind_eq (err e) next = on_err
Ensures-bind_eq panic next = on_panic
Ensures-bind_eq stuck next = on_stuck

pub Ensures-ok :
    {E A : Type 0} {P : A → Type 0} {r : Result E A} {a : A} → Ensures P r → r ≡ ok a → P a
Ensures-ok {P} (on_ok p) e = subst P (cc) p
Ensures-ok on_err e = cc
Ensures-ok on_panic e = cc
Ensures-ok on_stuck e = cc

pub Ensures-self :
    {E A : Type 0} {P : A → Type 0} (r : Result E A) → ((a : A) → r ≡ ok a → P a) → Ensures P r
Ensures-self (ok a) h = on_ok (h a refl)
Ensures-self (err e) h = on_err
Ensures-self panic h = on_panic
Ensures-self stuck h = on_stuck

pub unwrap-Ensures : {E A : Type 0} (o : Option A) → Ensures {E = E} (λ a. o ≡ some a) (unwrap o)
unwrap-Ensures none = on_panic
unwrap-Ensures (some a) = on_ok refl
