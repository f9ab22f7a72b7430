-- ===== src/Models/Errors.antt =====
-- The exceptions that end a service call (backend/app/core/exceptions.py and the classes of
-- backend/app/modules/jobs/service.py). A call that raises commits nothing.
use app_template.Prelude.{ℕ, Option, none, some, ◌≡◌, refl, String, Bool, true, false}

pub data Error : Type 0 where
  not_found conflict invalid : String → Error
  -- the job, its current owner token and the captured one
  stale_dispatch : ℕ → Option ℕ → Option ℕ → Error
  -- a unique constraint of PostgreSQL
  integrity : String → Error
  -- `OutboxContractError`
  contract : String → Error
  -- `RegistryError(kind=…, name=…)`
  registry : String → String → Error
  -- `AIInputValidationError`
  ai_input : String → Error
  -- any other exception: of the broker, the database or the interpreter
  failure : String → Error

pub data Result {ℓ} (A : Type ℓ) : Type ℓ where
  ok : A → Result A
  err : Error → Result A

abbrev pub or_raise {ℓ} : {A : Type ℓ} → Option A → Error → Result A
or_raise none e = err e
or_raise (some a) e = ok a

abbrev pub raise_if : Bool → Error → Result (Unit {0})
raise_if true e = err e
raise_if false e = ok tt

-- What follows a call is run where the call returned.
module _ {ℓ κ} {A : Type ℓ} {B : Type κ} where
  infixl 5 ◌>>=◌
  abbrev pub ◌>>=◌ : Result A → (A → Result B) → Result B
  err e >>= rest = err e
  ok a >>= rest = rest a

infixl 5 ◌>>◌
abbrev pub ◌>>◌ {ℓ} : {A : Type ℓ} → Result (Unit {0}) → Result A → Result A
r >> next = r >>= (λ _. next)

-- A chain that returned has returned at its first step.
pub bind-ok {ℓ κ} :
    {A : Type ℓ} {B : Type κ} (r : Result A) (rest : A → Result B) {b : B}
    → (r >>= rest) ≡ ok b
    → (a : A) × (r ≡ ok a) × (rest a ≡ ok b)
bind-ok (ok a) rest h = (a, refl, h)
bind-ok (err e) rest h = cc

pub or_raise-ok {ℓ} :
    {A : Type ℓ} {a : A} (e : Error) (o : Option A) → or_raise o e ≡ ok a → o ≡ some a
or_raise-ok e none h = cc
or_raise-ok e (some b) h = cc
