-- ===== src/Prelude/Sort.antt =====
-- Python's stable `list.sort`, over a test `no_later x y` that says that the key of `x` is not
-- greater than that of `y`, and the first item of a list that passes a test.
use mathlib.Core.Path.{◌≡◌, sym, subst}
use mathlib.Core.Logic.{◌↔◌, ◌⊎◌, inl, inr}
use mathlib.Core.Bool.{Bool, true, false}
use mathlib.Core.Option.{Option, none, some}
use mathlib.Core.List.{List, [], ◌∷◌, Memᴰ}
use native.Mathlib.Omega.{arith}
use cloud_agent_platform_dem.Prelude.Tests.{if◌then◌else◌, Bool-cases}
use cloud_agent_platform_dem.Prelude.Lists.{mem-cons_cases}

module _ {ℓ} {A : Type ℓ} where
  unfoldable pub insert_by : (A → A → Bool) → A → List A → List A
  insert_by no_later x [] = x ∷ []
  insert_by no_later x (y ∷ ys) =
      let rest = insert_by no_later x ys in if no_later x y then x ∷ y ∷ ys else y ∷ rest

  -- From the right, so that an item comes to stand before its equals that followed it.
  unfoldable pub sort_by : (A → A → Bool) → List A → List A
  unfolding insert_by
  sort_by no_later [] = []
  sort_by no_later (x ∷ xs) = insert_by no_later x (sort_by no_later xs)

  -- `next((x for x in xs if test(x)), None)`
  unfoldable pub find : (A → Bool) → List A → Option A
  find test [] = none
  find test (x ∷ xs) = let rest = find test xs in if test x then some x else rest

  insert_by-mem :
      (no_later : A → A → Bool) (x : A) (ys : List A) {z : A}
      → Memᴰ z (insert_by no_later x ys)
      → (z ≡ x) ⊎ Memᴰ z ys
  unfolding insert_by
  insert_by-mem no_later x [] m = mem-cons_cases m
  insert_by-mem no_later x (y ∷ ys) m = elim (Bool-cases (no_later x y)) [
    | inl e ↦ mem-cons_cases (rw (e, insert_by) at m)
    | inr e ↦ elim (mem-cons_cases (rw (e, insert_by) at m)) [
      | inl same ↦ inr (Memᴰ.head same)
      | inr later ↦ elim (insert_by-mem no_later x ys later) [
        | inl new ↦ inl new
        | inr old ↦ inr (Memᴰ.tail old)
      ]
    ]
  ]

  mem-insert_by_self :
      (no_later : A → A → Bool) (x : A) (ys : List A) {z : A}
      → z ≡ x
      → Memᴰ z (insert_by no_later x ys)
  unfolding insert_by
  mem-insert_by_self no_later x [] e = Memᴰ.head e
  mem-insert_by_self no_later x (y ∷ ys) e = elim (Bool-cases (no_later x y)) [
    | inl t ↦ rw t (Memᴰ.head e)
    | inr t ↦ rw t (Memᴰ.tail (mem-insert_by_self no_later x ys e))
  ]

  mem-insert_by_old :
      (no_later : A → A → Bool) (x : A) (ys : List A) {z : A}
      → Memᴰ z ys
      → Memᴰ z (insert_by no_later x ys)
  unfolding insert_by
  mem-insert_by_old no_later x [] m = elim m [ ]
  mem-insert_by_old no_later x (y ∷ ys) m = elim (Bool-cases (no_later x y)) [
    | inl t ↦ rw t (Memᴰ.tail m)
    | inr t ↦ rw t (elim (mem-cons_cases m) [
      | inl same ↦ Memᴰ.head same
      | inr later ↦ Memᴰ.tail (mem-insert_by_old no_later x ys later)
    ])
  ]

  pub mem-sort_by :
      (no_later : A → A → Bool) (xs : List A) {z : A} → Memᴰ z (sort_by no_later xs) ↔ Memᴰ z xs
  unfolding sort_by
  mem-sort_by no_later [] = (λ m. m, λ m. m)
  mem-sort_by no_later (x ∷ xs) = (
    λ m. elim (insert_by-mem no_later x (sort_by no_later xs) m) [
      | inl same ↦ Memᴰ.head same
      | inr old ↦ Memᴰ.tail ((mem-sort_by no_later xs).0 old)
    ],
    λ m. elim (mem-cons_cases m) [
      | inl same ↦ mem-insert_by_self no_later x (sort_by no_later xs) same
      | inr old ↦
          mem-insert_by_old no_later x (sort_by no_later xs) ((mem-sort_by no_later xs).1 old)
    ],
  )

  -- Each item is no later than every one behind it.
  abbrev pub IsSortedBy : (A → A → Bool) → List A → Type ℓ
  IsSortedBy no_later [] = Unit
  IsSortedBy no_later (x ∷ xs) =
      ((y : A) → Memᴰ y xs → no_later x y ≡ true) × IsSortedBy no_later xs

module _ {ℓ} {A : Type ℓ} (no_later : A → A → Bool)
    (total : (x y : A) → no_later x y ≡ false → no_later y x ≡ true)
    (trans : (x y z : A) → no_later x y ≡ true → no_later y z ≡ true → no_later x z ≡ true) where
  insert_by-IsSortedBy :
      (x : A) (ys : List A) → IsSortedBy no_later ys → IsSortedBy no_later (insert_by no_later x ys)
  unfolding insert_by
  insert_by-IsSortedBy x [] s = (λ y m. elim m [ ], tt)
  insert_by-IsSortedBy x (y ∷ ys) s = elim (Bool-cases (no_later x y)) [
    | inl e ↦ rw e (
        (
          λ z m. elim (mem-cons_cases m) [
            | inl same ↦ rw same e
            | inr later ↦ trans x y z e (s.0 z later)
          ],
          s,
        ))
    | inr e ↦ rw e (
        (
          λ z m. elim (insert_by-mem no_later x ys m) [
            | inl same ↦ rw same (total x y e)
            | inr old ↦ s.0 z old
          ],
          insert_by-IsSortedBy x ys s.1,
        ))
  ]

  pub sort_by-IsSortedBy : (xs : List A) → IsSortedBy no_later (sort_by no_later xs)
  unfolding sort_by
  sort_by-IsSortedBy [] = tt
  sort_by-IsSortedBy (x ∷ xs) = insert_by-IsSortedBy x (sort_by no_later xs) (sort_by-IsSortedBy xs)

module _ {ℓ} {A : Type ℓ} (no_later : A → A → Bool) (test : A → Bool) where
  -- The item found passes the test, and of the others that pass none is earlier.
  pub find-IsSortedBy :
      (xs : List A) {x : A}
      → IsSortedBy no_later xs
      → find test xs ≡ some x
      → Memᴰ x xs
        × (test x ≡ true)
        × ((y : A) → Memᴰ y xs → test y ≡ true → (y ≡ x) ⊎ (no_later x y ≡ true))
  unfolding find
  find-IsSortedBy [] s f = absurd (cc)
  find-IsSortedBy (z ∷ xs) {x} s f = elim (Bool-cases (test z)) [
    | inl e ↦
        let same : z ≡ x = ground (arith, f, e) in
        (
          Memᴰ.head (sym same),
          subst (λ y. test y ≡ true) same e,
          λ y m _. elim (mem-cons_cases m) [
            | inl here ↦ inl (cc)
            | inr later ↦ inr (subst (λ w. no_later w y ≡ true) same (s.0 y later))
          ],
        )
    | inr e ↦
        let (inside, passes, best) = find-IsSortedBy xs s.1 (rw (e, find) at f) in
        (
          Memᴰ.tail inside,
          passes,
          λ y m t. elim (mem-cons_cases m) [
            | inl here ↦ absurd (let y_fails : test y ≡ false = rw here e in cc)
            | inr later ↦ best y later t
          ],
        )
  ]

module _ {ℓ} {A : Type ℓ} (test : A → Bool) where
  pub find-none : (xs : List A) → find test xs ≡ none → (y : A) → Memᴰ y xs → test y ≡ false
  unfolding find
  find-none [] f y m = elim m [ ]
  find-none (z ∷ xs) f y m = elim (Bool-cases (test z)) [
    | inl e ↦ absurd (let found : some z ≡ none = rw (e, find) at f in cc)
    | inr e ↦ elim (mem-cons_cases m) [
      | inl here ↦ rw here e
      | inr later ↦ find-none xs (rw (e, find) at f) y later
    ]
  ]
