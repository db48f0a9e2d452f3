-- ===== src/Prelude/Hoare.antt =====
-- What an action that may raise promises: after a return, a fact about the result and the state, and
-- after a raise, a fact about the state. The rules follow the way that actions are composed.
use mathlib.Core.Path.{◌≡◌, refl}
use cloud_agent_platform_dem.Prelude.Exec.{Exec, Result, Error, ok, err, continue}

pub data Ends {S A : Type 0} (Q : A → S → Type 0) (X : S → Type 0) : Result A → S → Type 0 where
  returned : {a : A} {s : S} → Q a s → Ends Q X (ok a) s
  raised : {x : Error} {s : S} → X s → Ends Q X (err x) s

module _ {S A B : Type 0} {R : A → S → Type 0} {Q : B → S → Type 0} {X : S → Type 0} where
  -- One action after another.
  pub followed :
      {r : Result A} {s : S} {f : A → Exec S B}
      → Ends R X r s
      → ((a : A) (t : S) → R a t → Ends Q X (f a t).0 (f a t).1)
      → Ends Q X (continue r f s).0 (continue r f s).1
  followed (returned q) h = h _ _ q
  followed (raised x) h = raised x

module _ {S A : Type 0} {Q R : A → S → Type 0} {X Y : S → Type 0} where
  -- Weaker promises for the same action.
  pub weakened :
      {r : Result A} {s : S}
      → Ends Q X r s
      → ((a : A) (t : S) → Q a t → R a t)
      → ((t : S) → X t → Y t)
      → Ends R Y r s
  weakened (returned q) f g = returned (f _ _ q)
  weakened (raised x) f g = raised (g _ x)

-- What holds whatever the result is.
pub always : {S A : Type 0} {P : S → Type 0} (r : Result A) {s : S} → P s → Ends (λ a t. P t) P r s
always (ok a) p = returned p
always (err x) p = raised p

-- The same, and which result it is.
pub remembered :
    {S A : Type 0} {P : S → Type 0} (r : Result A) {s : S}
    → P s
    → Ends (λ a t. P t × (r ≡ ok a)) P r s
remembered (ok a) p = returned (p, refl)
remembered (err x) p = raised p
