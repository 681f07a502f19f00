-- ===== src/Base/Outcome.antt =====
-- Go's pair of a value and an error, where the value counts only without an error.
use mathlib.Core.Option.{Option, none, some}
use mathlib.Core.Path.{◌≡◌, refl, ap}
use native.Mathlib.Omega.{arith}
use mathlib.Core.Bool.{Bool, true, false}
use mutation_judge.Base.Tests.{if◌then◌else◌}

pub data Outcome {ℓ κ} (E : Type ℓ) (A : Type κ) : Type (ℓ ⊔ κ) where
  ok : A → Outcome E A
  fail : E → Outcome E A

infixl 5 ◌>>=◌
abbrev pub ◌>>=◌ {ℓ κ μ} :
    {E : Type ℓ} {A : Type κ} {B : Type μ} → Outcome E A → (A → Outcome E B) → Outcome E B
ok a >>= f = f a
fail e >>= f = fail e

abbrev pub map_ok {ℓ κ μ} :
    {E : Type ℓ} {A : Type κ} {B : Type μ} → (A → B) → Outcome E A → Outcome E B
map_ok f (ok a) = ok (f a)
map_ok f (fail e) = fail e

-- `if err != nil { return fmt.Errorf(…, err) }`
abbrev pub wrap {ℓ κ μ} :
    {E : Type ℓ} {F : Type κ} {A : Type μ} → (E → F) → Outcome E A → Outcome F A
wrap f (ok a) = ok a
wrap f (fail e) = fail (f e)

abbrev pub ok_or {ℓ κ} : {E : Type ℓ} {A : Type κ} → E → Option A → Outcome E A
ok_or e (some a) = ok a
ok_or e none = fail e

-- A chain that gives a value gives one at each step, and a test in front of one lets it pass.
pub bind-ok {ℓ κ μ ν} :
    {E : Type ℓ} {A : Type κ} {B : Type μ} {P : Type ν} (o : Outcome E A) (f : A → Outcome E B)
    (b : B)
    → (o >>= f) ≡ ok b
    → ((a : A) → o ≡ ok a → f a ≡ ok b → P)
    → P
bind-ok (ok a) f b h k = k a refl h
bind-ok (fail e) f b h k = absurd (ground (arith, h))

pub unless-ok {ℓ κ} :
    {E : Type ℓ} {A : Type κ} (t : Bool) (e : E) (o : Outcome E A) (a : A)
    → (if t then fail e else o) ≡ ok a
    → (t ≡ false) × (o ≡ ok a)
unless-ok true e o a h = absurd (ground (arith, h))
unless-ok false e o a h = (refl, h)

abbrev value_or {ℓ κ} : {E : Type ℓ} {A : Type κ} → A → Outcome E A → A
value_or a (ok b) = b
value_or a (fail e) = a

pub ok-inj {ℓ κ} : {E : Type ℓ} {A : Type κ} {a b : A} → ◌≡◌ {A = Outcome E A} (ok a) (ok b) → a ≡ b
ok-inj {a = a} h = ap (value_or a) h

pub wrap-ok {ℓ κ μ} :
    {E : Type ℓ} {F : Type κ} {A : Type μ} (f : E → F) (o : Outcome E A) (a : A)
    → wrap f o ≡ ok a
    → o ≡ ok a
wrap-ok f (ok b) a h = ap (λ o. elim o [ ok c ↦ ok c | fail e ↦ ok b ]) h
wrap-ok f (fail e) a h = absurd (ground (arith, h))
