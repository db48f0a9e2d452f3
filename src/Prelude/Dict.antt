-- ===== src/Prelude/Dict.antt =====
-- Python's `dict` with text keys, as an association list in insertion order: a write to a key that
-- is there keeps its place, and a new key goes to the end.
use mathlib.Core.Path.{◌≡◌, refl, ap}
use mathlib.Core.Logic.{◌≢◌, ◌⊎◌, inl, inr}
use mathlib.Core.Option.{Option, none, some}
use mathlib.Core.List.{List, [], ◌∷◌, Memᴰ}
use Prim.Native.String.{String}
use native.Mathlib.Omega.{arith}
use Prim.Native.Nat.{ℕ, ◌+◌}
use mathlib.Core.Bool.{Bool, true, false}
use cloud_agent_platform_dem.Prelude.Lists.{length, select}
use cloud_agent_platform_dem.Prelude.Tests.{
  str_eq, str_eq_iff, str_eq_refl, str_eq-ne, if◌then◌else◌, Bool-cases,
}

abbrev pub Dict {ℓ} : Type ℓ → Type ℓ
Dict V = List (String × V)

pub some_injective {ℓ} : {A : Type ℓ} (a b : A) → some a ≡ some b → a ≡ b
some_injective a b p = ap (λ o. elim o [ none ↦ a | some x ↦ x ]) p

module _ {ℓ} {V : Type ℓ} where
  -- `d.get(k)`
  unfoldable pub get : Dict V → String → Option V
  get [] k = none
  get ((j, v) ∷ d) k = let rest = get d k in if str_eq j k then some v else rest

  -- `d[k] = v`
  unfoldable pub put : Dict V → String → V → Dict V
  put [] k v = (k, v) ∷ []
  put ((j, w) ∷ d) k v = let rest = put d k v in if str_eq j k then (j, v) ∷ d else (j, w) ∷ rest

  -- `list(d.values())`
  unfoldable pub values : Dict V → List V
  values [] = []
  values ((k, v) ∷ d) = v ∷ values d

  pub get-put :
      (d : Dict V) (k j : String) (v : V)
      → get (put d k v) j ≡ (if str_eq k j then some v else get d j)
  unfolding get put
  get-put [] k j v = refl
  get-put ((i, w) ∷ d) k j v =
      ground (arith, str_eq_iff k j, str_eq_iff i k, str_eq_iff i j, get-put d k j v)

  pub get-put_self : (d : Dict V) (k : String) (v : V) → get (put d k v) k ≡ some v
  get-put_self d k v = rw (get-put d k k v, str_eq_refl k)

  pub get-put_ne : (d : Dict V) (k j : String) (v : V) → k ≢ j → get (put d k v) j ≡ get d j
  get-put_ne d k j v h = rw (get-put d k j v) (ground (arith, str_eq_iff k j))

  -- What is found after a write is what was written, or what was there.
  pub put-found :
      (d : Dict V) (k j : String) (v w : V)
      → get (put d k v) j ≡ some w
      → ((k ≡ j) × (v ≡ w)) ⊎ ((k ≢ j) × (get d j ≡ some w))
  put-found d k j v w found = elim (Bool-cases (str_eq k j)) [
    | inl e ↦ inl ((str_eq_iff k j).0 e, some_injective v w (rw (get-put d k j v, e) at found))
    | inr e ↦ inr (str_eq-ne k j e, rw (get-put d k j v, e) at found)
  ]

  -- No key stands twice.
  abbrev pub HasDistinctKeys : Dict V → Type ℓ
  HasDistinctKeys [] = Unit
  HasDistinctKeys ((k, v) ∷ d) = (get d k ≡ none) × HasDistinctKeys d

  pub put-HasDistinctKeys :
      (d : Dict V) (k : String) (v : V) → HasDistinctKeys d → HasDistinctKeys (put d k v)
  unfolding put get
  put-HasDistinctKeys [] k v h = (refl, tt)
  put-HasDistinctKeys ((j, w) ∷ d) k v h = elim (Bool-cases (str_eq j k)) [
    | inl e ↦ rw e h
    | inr e ↦ rw e (
      rw (get-put d k j v) (ground (arith, h.0, str_eq_iff k j, str_eq_iff j k)),
      put-HasDistinctKeys d k v h.1,
    )
  ]

  -- A value of the dictionary is found under its key.
  pub values_found :
      (d : Dict V) {v : V}
      → HasDistinctKeys d
      → Memᴰ v (values d)
      → (k : String) × (get d k ≡ some v)
  unfolding values get
  values_found [] h m = elim m [ ]
  values_found ((k, w) ∷ d) h (Memᴰ.head e) = (k, rw (str_eq_refl k, e))
  values_found ((k, w) ∷ d) {v} h (Memᴰ.tail m) =
      let (j, found) = values_found d h.1 m in (j, ground (arith, found, h.0, str_eq_iff k j))

  pub found_in_values : (d : Dict V) (k : String) {v : V} → get d k ≡ some v → Memᴰ v (values d)
  unfolding values get
  found_in_values [] k h = absurd (cc)
  found_in_values ((j, w) ∷ d) k h = elim (Bool-cases (str_eq j k)) [
    | inl e ↦ Memᴰ.head (ground (arith, h, e))
    | inr e ↦ Memᴰ.tail (found_in_values d k (ground (arith, h, e)))
  ]

module _ {ℓ} {V : Type ℓ} (test : V → Bool) where
  abbrev ticks : Bool → ℕ
  ticks true = 1
  ticks false = 0

  -- A write over an old value changes the number of values that pass a test by what the two differ.
  pub length-select-put :
      (d : Dict V) (k : String) {old : V} (new : V)
      → get d k ≡ some old
      → length (select test (values (put d k new))) + ticks (test old)
        ≡ length (select test (values d)) + ticks (test new)
  unfolding put get values select
  length-select-put [] k new found = absurd (cc)
  length-select-put ((j, v) ∷ d) k {old} new found = elim (Bool-cases (str_eq j k)) [
    | inl e ↦ ground (arith, found, e)
    | inr e ↦ ground (arith, e, length-select-put d k {old = old} new (rw (e, get) at found))
  ]
