-- ===== src/Prelude/Lists.antt =====
-- Lists measured by native numbers, a predicate on all items, and the items that pass a test.
use Prim.Native.Nat.{ℕ, suc, ◌+◌}
use mathlib.Core.Path.{◌≡◌, refl, sym, subst}
use mathlib.Core.Logic.{◌⊎◌, inl, inr}
use mathlib.Core.Bool.{Bool, true, false, ◌&&◌}
use mathlib.Core.List.{List, [], ◌∷◌, ◌++◌, Memᴰ}
use mathlib.Core.Option.{Option, none, some}
use native.Mathlib.Omega.{arith}
use cloud_agent_platform_dem.Prelude.Tests.{if◌then◌else◌, Bool-cases}

module _ {ℓ} {A : Type ℓ} where
  abbrev pub length : List A → ℕ
  length [] = 0
  length (x ∷ xs) = suc (length xs)

  abbrev pub All {κ} : (A → Type κ) → List A → Type κ
  All P [] = Unit
  All P (x ∷ xs) = P x × All P xs

  -- `[x for x in xs if keep(x)]`
  unfoldable pub select : (A → Bool) → List A → List A
  select keep [] = []
  select keep (x ∷ xs) = let rest = select keep xs in if keep x then x ∷ rest else rest

  -- `any(test(x) for x in xs)`
  unfoldable pub any : (A → Bool) → List A → Bool
  any test [] = false
  any test (x ∷ xs) = let rest = any test xs in if test x then true else rest

  pub length-append : (xs ys : List A) → length (xs ++ ys) ≡ length xs + length ys
  length-append [] ys = omega arith
  length-append (x ∷ xs) ys = omega (arith, length-append xs ys)

  pub All-append {κ} : (P : A → Type κ) (xs ys : List A) → All P xs → All P ys → All P (xs ++ ys)
  All-append P [] ys h k = k
  All-append P (x ∷ xs) ys h k = (h.0, All-append P xs ys h.1 k)

  pub All-mem {κ} : (P : A → Type κ) {x : A} {xs : List A} → Memᴰ x xs → All P xs → P x
  All-mem P (Memᴰ.head e) h = subst P (sym e) h.0
  All-mem P (Memᴰ.tail m) h = All-mem P m h.1

  pub All-select {κ} :
      (P : A → Type κ) (keep : A → Bool) (xs : List A) → All P xs → All P (select keep xs)
  unfolding select
  All-select P keep [] h = tt
  All-select P keep (x ∷ xs) h = elim (Bool-cases (keep x)) [
    | inl e ↦ rw e (h.0, All-select P keep xs h.1)
    | inr e ↦ rw e (All-select P keep xs h.1)
  ]

  pub select_passes : (keep : A → Bool) (xs : List A) → All (λ x. keep x ≡ true) (select keep xs)
  unfolding select
  select_passes keep [] = tt
  select_passes keep (x ∷ xs) = elim (Bool-cases (keep x)) [
    | inl e ↦ rw (e, select) (e, select_passes keep xs)
    | inr e ↦ rw (e, select) (select_passes keep xs)
  ]

  pub mem-cons_cases : {x y : A} {xs : List A} → Memᴰ x (y ∷ xs) → (x ≡ y) ⊎ Memᴰ x xs
  mem-cons_cases (Memᴰ.head e) = inl e
  mem-cons_cases (Memᴰ.tail m) = inr m

  pub mem-select :
      (keep : A → Bool) {x : A} (xs : List A)
      → Memᴰ x (select keep xs)
      → Memᴰ x xs × (keep x ≡ true)
  unfolding select
  mem-select keep [] m = elim m [ ]
  mem-select keep {x = a} (x ∷ xs) m = elim (Bool-cases (keep x)) [
    | inl e ↦ elim (mem-cons_cases (rw (e, select) at m)) [
      | inl same ↦ (Memᴰ.head same, rw same e)
      | inr later ↦ let (inside, passes) = mem-select keep xs later in (Memᴰ.tail inside, passes)
    ]
    | inr e ↦
        let (inside, passes) = mem-select keep xs (rw (e, select) at m) in
        (Memᴰ.tail inside, passes)
  ]

  pub select-mem :
      (keep : A → Bool) {x : A} (xs : List A) → Memᴰ x xs → keep x ≡ true → Memᴰ x (select keep xs)
  unfolding select
  select-mem keep [] m h = elim m [ ]
  select-mem keep (y ∷ xs) (Memᴰ.head same) h =
      rw (let e : keep y ≡ true = rw same at h in e) (Memᴰ.head same)
  select-mem keep (y ∷ xs) (Memᴰ.tail m) h = elim (Bool-cases (keep y)) [
    | inl e ↦ rw e (Memᴰ.tail (select-mem keep xs m h))
    | inr e ↦ rw e (select-mem keep xs m h)
  ]

  pub select-select :
      (p q : A → Bool) (xs : List A) → select p (select q xs) ≡ select (λ x. q x && p x) xs
  unfolding select
  select-select p q [] = refl
  select-select p q (x ∷ xs) = elim (Bool-cases (q x)) [
    | inl e ↦ rw (e, select) (rw (select-select p q xs))
    | inr e ↦ rw (e, select) (select-select p q xs)
  ]

  pub any-mem :
      (test : A → Bool) (xs : List A) → any test xs ≡ true → (x : A) × Memᴰ x xs × (test x ≡ true)
  unfolding any
  any-mem test [] h = absurd (cc)
  any-mem test (x ∷ xs) h = elim (Bool-cases (test x)) [
    | inl e ↦ (x, Memᴰ.head refl, e)
    | inr e ↦ let (y, m, f) = any-mem test xs (rw e at h) in (y, Memᴰ.tail m, f)
  ]

  pub mem-any :
      (test : A → Bool) (xs : List A) {x : A} → Memᴰ x xs → test x ≡ true → any test xs ≡ true
  unfolding any
  mem-any test [] m e = elim m [ ]
  mem-any test (y ∷ ys) m e = elim (Bool-cases (test y)) [
    | inl f ↦ rw f refl
    | inr f ↦ elim (mem-cons_cases m) [
      | inl same ↦ absurd (cc)
      | inr later ↦ rw f (mem-any test ys later e)
    ]
  ]

  pub List-cases : (xs : List A) → (xs ≡ []) ⊎ ((y : A) × (ys : List A) × (xs ≡ y ∷ ys))
  List-cases [] = inl refl
  List-cases (y ∷ ys) = inr (y, ys, refl)

  abbrev pub last? : List A → Option A
  last? [] = none
  last? (x ∷ []) = some x
  last? (x ∷ y ∷ xs) = last? (y ∷ xs)

  pub last?-append : (xs : List A) (x : A) → last? (xs ++ x ∷ []) ≡ some x
  last?-append [] x = refl
  last?-append (y ∷ []) x = refl
  last?-append (y ∷ z ∷ xs) x = last?-append (z ∷ xs) x

  pub last?-cons : (y : A) (xs : List A) {x : A} → last? xs ≡ some x → last? (y ∷ xs) ≡ some x
  last?-cons y [] e = absurd (cc)
  last?-cons y (z ∷ xs) e = e
