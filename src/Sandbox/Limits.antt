-- ===== src/Sandbox/Limits.antt =====
-- What the policy of app/sandbox/policy.py guarantees of the specifications that it returns.
use cloud_agent_platform_dem.Prelude.{
  String, true, false, not, ◌&&◌, ◌≡◌, ◌≢◌, sym, subst, ◌⊎◌, inl, inr, some, List, [], ◌∷◌, arith,
  Memᴰ, All, Bool-cases, str_eq, str_eq-ne,
}
use cloud_agent_platform_dem.Prelude.Int.{ℤ, pos, negsuc, ◌<ℤ◌, ◌≤ℤ◌, ltb_ℤ}
use cloud_agent_platform_dem.Prelude.Dict.{Dict}
use cloud_agent_platform_dem.Prelude.Exec.{ok, ◌after◌, after-split, Result-cases, ok_injective}
use cloud_agent_platform_dem.Text.{is_one_of}
use cloud_agent_platform_dem.Sandbox.{
  Host, SandboxPolicy, SandboxSpec, CommandSpec, MountSpec, is_given, is_disabled, is_outside,
  check_variable, check_environment, check_mounts, check_spec, check_contents, check_sizes,
  validate_spec, check_words, normalized,
}

-- A list of allowed names allows a name when it is empty or has it.
abbrev pub Allows : List String → String → Type 0
Allows names name = (is_given names ≡ false) ⊎ (is_one_of names name ≡ true)

abbrev pub AllKeys : (String → Type 0) → Dict String → Type 0
AllKeys P [] = Unit
AllKeys P ((k, v) ∷ d) = P k × AllKeys P d

module _ (h : Host) (p : SandboxPolicy) where
  abbrev pub IsVariable : String → Type 0
  IsVariable key = (h.is_variable_name key ≡ true) × Allows p.allowed_environment key

  -- A command that may run: its words, its variables, its two limits and its directory.
  pub record IsRunnable (c : CommandSpec) : Type 0 where
    pub has_words : is_given c.argv ≡ true
    pub words : All (λ a. a ≢ "") c.argv
    pub variables : AllKeys IsVariable c.environment
    pub timeout : ℤ
    pub timeout_set : c.timeout_seconds ≡ some timeout
    pub timeout_positive : pos 0 <ℤ timeout
    pub timeout_bounded : timeout ≤ℤ p.max_timeout_seconds
    pub output : ℤ
    pub output_set : c.max_output_bytes ≡ some output
    pub output_positive : pos 0 <ℤ output
    pub output_bounded : output ≤ℤ p.max_output_bytes
    pub absolute : h.is_absolute_posix c.working_directory ≡ true
    pub no_parents : h.has_parent_part c.working_directory ≡ false
    pub root : String
    pub root_allowed : Memᴰ root p.allowed_workdirs
    pub inside : h.is_inside c.working_directory root ≡ true

  -- A sandbox that may start.
  pub record IsStartable (s : SandboxSpec) : Type 0 where
    pub image_allowed : Allows p.allowed_images s.image
    pub network_allowed : (is_disabled s.network_policy ≡ true) ⊎ (p.allow_network ≡ true)
    pub sources_there : All (λ m. h.exists_on_host (h.source_path m.source) ≡ true) s.mounts
    pub variables : AllKeys IsVariable s.environment
    pub timeout_bounded : s.command_timeout_seconds ≤ℤ p.max_timeout_seconds
    pub output_bounded : s.max_output_bytes ≤ℤ p.max_output_bytes

allows :
    (names : List String) (name : String)
    → (is_given names && not (is_one_of names name)) ≡ false
    → Allows names name
allows names name e = ground arith

pub not_outside : (n limit : ℤ) → is_outside n limit ≡ false → (pos 0 <ℤ n) × (n ≤ℤ limit)
not_outside (pos n) (pos m) e = (ground arith, ground arith)
not_outside (pos n) (negsuc m) e = (ground arith, ground arith)
not_outside (negsuc n) (pos m) e = (ground arith, ground arith)
not_outside (negsuc n) (negsuc m) e = (ground arith, ground arith)

at_most : (n limit : ℤ) → ltb_ℤ limit n ≡ false → n ≤ℤ limit
at_most (pos n) (pos m) e = ground arith
at_most (pos n) (negsuc m) e = ground arith
at_most (negsuc n) (pos m) e = ground arith
at_most (negsuc n) (negsuc m) e = ground arith

pub check_words-given : (ws : List String) → check_words ws ≡ ok tt → All (λ a. a ≢ "") ws
unfolding check_words
check_words-given [] e = tt
check_words-given (w ∷ ws) e = elim (Bool-cases (str_eq w "")) [
  | inl f ↦ absurd (let g = rw f at e in cc)
  | inr f ↦ (str_eq-ne w "" f, check_words-given ws (rw f at e))
]

module _ (h : Host) (p : SandboxPolicy) where
  check_variable-IsVariable : (key : String) → check_variable h p key ≡ ok tt → IsVariable h p key
  unfolding check_variable
  check_variable-IsVariable key e = elim (Bool-cases (h.is_variable_name key)) [
    | inr f ↦ absurd (let g = rw f at e in cc)
    | inl f ↦
        elim (Bool-cases
          (is_given p.allowed_environment && not (is_one_of p.allowed_environment key))) [
            | inl g ↦ absurd (let k = rw (f, g) at e in cc)
            | inr g ↦ (f, allows p.allowed_environment key g)
          ]
  ]

  pub check_environment-AllKeys :
      (d : Dict String) → check_environment h p d ≡ ok tt → AllKeys (IsVariable h p) d
  unfolding check_environment
  check_environment-AllKeys [] e = tt
  check_environment-AllKeys ((k, v) ∷ d) e =
      let (now, rest) = after-split (check_environment h p d) (check_variable h p k) e in
      (check_variable-IsVariable k now, check_environment-AllKeys d rest)

  check_mounts-there :
      (ms : List MountSpec)
      → check_mounts h p ms ≡ ok tt
      → All (λ m. h.exists_on_host (h.source_path m.source) ≡ true) ms
  unfolding check_mounts
  check_mounts-there [] e = tt
  check_mounts-there (m ∷ ms) e = elim (Bool-cases (h.exists_on_host (h.source_path m.source))) [
    | inl f ↦ (f, check_mounts-there ms (rw f at e))
    | inr f ↦ absurd (let g = rw f at e in cc)
  ]

  check_sizes_bounded :
      (s : SandboxSpec)
      → check_sizes h p s ≡ ok tt
      → (s.command_timeout_seconds ≤ℤ p.max_timeout_seconds)
        × (s.max_output_bytes ≤ℤ p.max_output_bytes)
  check_sizes_bounded s e =
      elim (Bool-cases (ltb_ℤ p.max_timeout_seconds s.command_timeout_seconds)) [
        | inl f ↦ absurd (let g = rw f at e in cc)
        | inr f ↦ elim (Bool-cases (ltb_ℤ p.max_output_bytes s.max_output_bytes)) [
          | inl g ↦ absurd (let k = rw (f, g) at e in cc)
          | inr g ↦ (
            at_most s.command_timeout_seconds p.max_timeout_seconds f,
            at_most s.max_output_bytes p.max_output_bytes g,
          )
        ]
      ]

  check_contents_parts :
      (s : SandboxSpec)
      → check_contents h p s ≡ ok tt
      → (check_mounts h p s.mounts ≡ ok tt)
        × (check_environment h p s.environment ≡ ok tt)
        × (check_sizes h p s ≡ ok tt)
  unfolding check_contents
  check_contents_parts s e =
      let (first, last) =
        after-split (check_sizes h p s)
          (check_environment h p s.environment after check_mounts h p s.mounts) e in
      let (mounted, named) =
        after-split (check_environment h p s.environment) (check_mounts h p s.mounts) first in
      (mounted, named, last)

  check_spec-IsStartable : (s : SandboxSpec) → check_spec h p s ≡ ok tt → IsStartable h p s
  unfolding check_spec
  check_spec-IsStartable s e =
      elim (Bool-cases (is_given p.allowed_images && not (is_one_of p.allowed_images s.image))) [
        | inl f ↦ absurd (let g = rw f at e in cc)
        | inr f ↦ elim (Bool-cases (not (is_disabled s.network_policy) && not p.allow_network)) [
          | inl g ↦ absurd (let k = rw (f, g) at e in cc)
          | inr g ↦
              let (mounted, named, sized) = check_contents_parts s (rw (f, g) at e) in
              let (time, output) = check_sizes_bounded s sized in
              record {
                image_allowed = allows p.allowed_images s.image f;
                network_allowed = ground arith;
                sources_there = check_mounts-there s.mounts mounted;
                variables = check_environment-AllKeys s.environment named;
                timeout_bounded = time;
                output_bounded = output;
              }
        ]
      ]

  -- A specification that the policy returns is the normalized form of the one that it was given, and
  -- may start: its image, its network and every variable are allowed, every mount is of something
  -- that exists, and its timeout and its output limit are at most those of the policy.
  pub validate_spec-IsStartable :
      (s s' : SandboxSpec) → validate_spec h p s ≡ ok s' → (s' ≡ normalized s) × IsStartable h p s'
  unfolding validate_spec
  validate_spec-IsStartable s s' e = elim (Result-cases (check_spec h p (normalized s))) [
    | inr (x, f) ↦ absurd (let g = rw f at e in cc)
    | inl (x, f) ↦
        let same : normalized s ≡ s' = ok_injective (rw f at e) in
        (sym same, subst (IsStartable h p) same (check_spec-IsStartable (normalized s) f))
  ]
