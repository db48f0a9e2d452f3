-- ===== src/Prelude/Exec.antt =====
-- Errors as values, and methods that mutate an object and may raise. What was written before a
-- raise stays written, so the state comes back beside the error too.
use Prim.Native.String.{String}
use mathlib.Core.Path.{◌≡◌, refl, ap}
use mathlib.Core.Logic.{◌⊎◌, inl, inr}

-- The exceptions of app/, with the text that their message names where the code puts one in. All are of
-- the class `Exception`, which `except Exception` catches; a cancellation, which it does not catch, is
-- none of them.
pub data Error : Type 0 where
  -- storage/task_store.py
  task_not_found duplicate_task : String → Error
  -- orchestration/errors.py
  invalid_task_transition : Error
  lease_task_not_queued lease_already_active : String → Error
  lease_not_found lease_released lease_expired : String → Error
  -- tools/registry.py
  tool_not_found duplicate_tool : String → Error
  -- llm/registry.py
  provider_not_found duplicate_provider : String → Error
  -- tools/validator.py and the ValueError of a tool
  tool_validation_error : String → Error
  value_error : String → Error
  -- orchestration/multi_agent/blackboard.py, and a key that a dict lacks
  blackboard_permission_error : String → Error
  key_error : String → Error
  -- sandbox/errors.py
  sandbox_error sandbox_not_found sandbox_policy_violation : String → Error
  -- workspace/workspace_manager.py and repository_preparer.py
  workspace_path_error : String → Error
  repository_validation_error repository_clone_error : String → Error
  -- any other exception, with the name of its class and its text
  other_error : (type_name message : String) → Error

pub data Result {ℓ} (A : Type ℓ) : Type ℓ where
  ok : A → Result A
  err : Error → Result A

-- What a check gives: nothing, or the exception that it raises.
abbrev pub Check : Type 0
Check = Result Unit

abbrev pub Exec {ℓ} : Type ℓ → Type ℓ → Type ℓ
Exec S A = S → Result A × S

module _ {ℓ} {S A : Type ℓ} where
  abbrev pub pure : A → Exec S A
  pure a s = (ok a, s)

  abbrev pub raise : Error → Exec S A
  raise e s = (err e, s)

  abbrev pub lift : Result A → Exec S A
  lift r s = (r, s)

  abbrev pub gets : (S → A) → Exec S A
  gets f s = (ok (f s), s)

module _ {ℓ} {S A B : Type ℓ} where
  abbrev pub continue : Result A → (A → Exec S B) → Exec S B
  continue (ok a) f s = f a s
  continue (err e) f s = (err e, s)

  infixl 10 ◌>>=◌ ◌>>◌
  abbrev pub ◌>>=◌ : Exec S A → (A → Exec S B) → Exec S B
  ◌>>=◌ m f s = let (r, s') = m s in continue r f s'

  abbrev pub ◌>>◌ : Exec S A → Exec S B → Exec S B
  m >> n = m >>= λ _. n

-- To split on a computed result and keep the equation.
pub Result-cases {ℓ} :
    {A : Type ℓ} (r : Result A) → ((a : A) × (r ≡ ok a)) ⊎ ((e : Error) × (r ≡ err e))
Result-cases (ok a) = inl (a, refl)
Result-cases (err e) = inr (e, refl)

abbrev value_or {ℓ} : {A : Type ℓ} → A → Result A → A
value_or d (ok a) = a
value_or d (err e) = d

pub ok_injective {ℓ} : {A : Type ℓ} {a b : A} → ok a ≡ ok b → a ≡ b
ok_injective {a} p = ap (value_or a) p

-- `a` and then `b`, where both raise or return nothing.
infixr 10 ◌after◌
abbrev pub ◌after◌ : Check → Check → Check
b after (ok x) = b
b after (err e) = err e

pub after-split : (b a : Check) → (b after a) ≡ ok tt → (a ≡ ok tt) × (b ≡ ok tt)
after-split b (ok tt) h = (refl, h)
after-split b (err e) h = absurd (cc)
