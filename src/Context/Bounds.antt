-- ===== src/Context/Bounds.antt =====
-- How large a lane of app/context/lane.py gets.
use cloud_agent_platform_dem.Prelude.{
  last?, last?-append, last?-cons, ℕ, zero, suc, ◌+◌, ◌-◌, ◌*◌, ◌≤◌, ◌<◌, max, String, false, ◌≡◌,
  refl, ◌≢◌, ◌∙◌, ◌⊎◌, inl, inr, some, List, [], ◌∷◌, ◌++◌, arith, length, length-append, leb,
  Bool-cases,
}
use cloud_agent_platform_dem.Domain.{DateTime}
use cloud_agent_platform_dem.Context.{
  Characters, ContextEntry, ContextBudget, CompactionLevel, normal, light, medium, heavy, reaches,
  level_for, drop, last_items, but_last_items, entry_tokens, estimated_tokens, summarize, compact,
  append,
}

length-drop :
    {A : Type 0} (n : ℕ) (xs : List A) → n ≤ length xs → length (drop n xs) + n ≡ length xs
length-drop zero xs le = omega arith
length-drop (suc n) [] le = absurd (omega arith)
length-drop (suc n) (x ∷ xs) le = omega (arith, length-drop n xs (omega arith))

length-last_items : {A : Type 0} (n : ℕ) (xs : List A) → length (last_items n xs) ≤ n
unfolding last_items
length-last_items n xs = omega (arith, length-drop (length xs - n) xs (omega arith))

last?-drop : {A : Type 0} (n : ℕ) (xs : List A) → n < length xs → last? (drop n xs) ≡ last? xs
last?-drop zero xs le = refl
last?-drop (suc n) [] le = absurd (omega arith)
last?-drop (suc n) (x ∷ []) le = absurd (omega arith)
last?-drop (suc n) (x ∷ y ∷ xs) le = last?-drop n (y ∷ xs) (omega arith)

last?-last_items :
    {A : Type 0} (n : ℕ) (xs : List A) (x : A)
    → 0 < n
    → last? (last_items n (xs ++ x ∷ [])) ≡ some x
unfolding last_items
last?-last_items n xs x pos =
    last?-drop (length (xs ++ x ∷ []) - n) (xs ++ x ∷ []) (omega (arith, length-append xs (x ∷ [])))
    ∙ last?-append xs x

module _ (c : Characters) where
  length-le-tokens : (es : List ContextEntry) → length es ≤ estimated_tokens c es
  unfolding estimated_tokens entry_tokens
  length-le-tokens [] = omega arith
  length-le-tokens (e ∷ es) = omega (arith, length-le-tokens es)

  length-summarize :
      (id : String) (now : DateTime) (n : ℕ) (old keep : List ContextEntry)
      → length (summarize c id now n old keep) ≤ length keep + 1
  unfolding summarize
  length-summarize id now n [] keep = omega arith
  length-summarize id now n (e ∷ es) keep = omega arith

  last?-summarize :
      (id : String) (now : DateTime) (n : ℕ) (old keep : List ContextEntry) (x : ContextEntry)
      → last? keep ≡ some x
      → last? (summarize c id now n old keep) ≡ some x
  unfolding summarize
  last?-summarize id now n [] keep x e = e
  last?-summarize id now n (o ∷ os) keep x e = last?-cons _ keep e

  last?-compact :
      (id : String) (now : DateTime) (level : CompactionLevel) (xs : List ContextEntry)
      (x : ContextEntry)
      → last? (compact c id now level (xs ++ x ∷ [])) ≡ some x
  unfolding compact
  last?-compact id now normal xs x = last?-append xs x
  last?-compact id now light xs x = last?-last_items 20 xs x (omega arith)
  last?-compact id now medium xs x =
      last?-summarize id now 2000 (but_last_items 10 (xs ++ x ∷ [])) (last_items 10 (xs ++ x ∷ []))
        x (last?-last_items 10 xs x (omega arith))
  last?-compact id now heavy xs x =
      last?-summarize id now 1000 (but_last_items 5 (xs ++ x ∷ [])) (last_items 5 (xs ++ x ∷ [])) x
        (last?-last_items 5 xs x (omega arith))

  -- A level above normal leaves at most twenty entries.
  length-compact :
      (id : String) (now : DateTime) (level : CompactionLevel) (xs : List ContextEntry)
      → (level ≡ normal) ⊎ (length (compact c id now level xs) ≤ 20)
  unfolding compact
  length-compact id now normal xs = inl refl
  length-compact id now light xs = inr (length-last_items 20 xs)
  length-compact id now medium xs = inr (
      omega (
        arith,
        length-summarize id now 2000 (but_last_items 10 xs) (last_items 10 xs),
        length-last_items 10 xs,
      ))
  length-compact id now heavy xs = inr (
      omega (
        arith,
        length-summarize id now 1000 (but_last_items 5 xs) (last_items 5 xs),
        length-last_items 5 xs,
      ))

leb-false : (m n : ℕ) → leb m n ≡ false → n < m
leb-false m n e = ground arith

normal_below :
    (b : ContextBudget) (n : ℕ)
    → level_for b n ≡ normal
    → n * 100 < b.light_threshold * max 1 b.max_tokens
unfolding level_for
normal_below b n e = elim (Bool-cases (reaches b n b.heavy_threshold)) [
  | inl h ↦ absurd (heavy_ne (rw h at e))
  | inr h ↦ elim (Bool-cases (reaches b n b.medium_threshold)) [
    | inl m ↦ absurd (medium_ne (rw (h, m) at e))
    | inr m ↦ elim (Bool-cases (reaches b n b.light_threshold)) [
      | inl l ↦ absurd (light_ne (rw (h, m, l) at e))
      | inr l ↦ leb-false _ _ l
    ]
  ]
]
  where
    heavy_ne : heavy ≢ normal
    heavy_ne e = absurd (cc)

    medium_ne : medium ≢ normal
    medium_ne e = absurd (cc)

    light_ne : light ≢ normal
    light_ne e = absurd (cc)

-- Whatever a lane held, the entry that is appended is its last one afterwards, and the lane stays
-- small: it has at most twenty entries, or its tokens, of which every entry counts at least one, are
-- below the threshold of the light level.
pub append_lem :
    (c : Characters) (b : ContextBudget) (id : String) (now : DateTime) (entry : ContextEntry)
    (entries : List ContextEntry)
    → (last? (append c b id now entry entries) ≡ some entry)
      × (length (append c b id now entry entries)
          ≤ estimated_tokens c (append c b id now entry entries))
      × ((length (append c b id now entry entries) ≤ 20)
          ⊎ (estimated_tokens c (append c b id now entry entries) * 100
              < b.light_threshold * max 1 b.max_tokens))
unfolding append compact
append_lem c b id now entry entries = (
  last?-compact c id now _ entries entry,
  length-le-tokens c _,
  elim (length-compact c id now (level_for b (estimated_tokens c (entries ++ entry ∷ [])))
      (entries ++ entry ∷ [])) [
        | inr few ↦ inl few
        | inl is_normal ↦ inr (rw (is_normal, compact) (normal_below b _ is_normal))
      ],
)
