-- ===== src/Blackboard/Authority.antt =====
-- What app/orchestration/multi_agent/blackboard.py keeps: every item was written by a role that may
-- write its key, and a key is never written twice with the same version.
use cloud_agent_platform_dem.Prelude.{
  ◌+◌, ◌≤◌, String, true, false, ◌≡◌, refl, ◌⊎◌, inl, inr, Option, none, some, arith, Bool-cases,
  str_eq, str_eq_iff, str_eq-ne, subst,
}
use cloud_agent_platform_dem.Prelude.Dict.{
  get, get-put_self, get-put_ne, put-found, HasDistinctKeys, put-HasDistinctKeys,
}
use cloud_agent_platform_dem.Prelude.Exec.{ok, err, blackboard_permission_error}
use cloud_agent_platform_dem.Value.{Value}
use cloud_agent_platform_dem.Domain.{DateTime}
use cloud_agent_platform_dem.Blackboard.{
  AgentRole, Blackboard, BlackboardItem, can_write, write, new_item, next_version, item,
}

pub record IsAuthorised (board : Blackboard) : Type 0 where
  pub distinct : HasDistinctKeys board
  pub allowed :
      (k : String) (i : BlackboardItem)
      → get board k ≡ some i
      → (i.key ≡ k) × (can_write i.role k ≡ true) × (1 ≤ i.version)

version_positive : (o : Option BlackboardItem) → 1 ≤ next_version o
version_positive none = omega arith
version_positive (some i) = omega arith

version_cases :
    (o : Option BlackboardItem)
    → ((o ≡ none) × (next_version o ≡ 1))
      ⊎ ((old : BlackboardItem) × (o ≡ some old) × (next_version o ≡ old.version + 1))
version_cases none = inl (refl, refl)
version_cases (some old) = inr (old, refl, refl)

pub write-IsAuthorised :
    (now : DateTime) (key : String) (value : Value) (role : AgentRole) (board : Blackboard)
    → IsAuthorised board
    → IsAuthorised (write now key value role board).1
unfolding write new_item
write-IsAuthorised now key value role board w = elim (Bool-cases (can_write role key)) [
  | inr e ↦ rw e w
  | inl e ↦ rw e (record {
    distinct = put-HasDistinctKeys board key _ w.distinct;
    allowed = λ k i found. elim (put-found board key k _ i found) [
      | inl (same, is) ↦
          subst (λ x. (x.key ≡ k) × (can_write x.role k ≡ true) × (1 ≤ x.version)) is
            (subst (λ j. (key ≡ j) × (can_write role j ≡ true) × (1 ≤ next_version (get board key)))
              same (refl, e, version_positive (get board key)))
      | inr (other, old) ↦ w.allowed k i old
    ];
  })
]

-- A write without permission raises and leaves the board as it is. With it, the key gets the new
-- item, with the first version if the key is new and the next one after the old otherwise, and every
-- other key keeps what it had.
pub write_lem :
    (now : DateTime) (key : String) (value : Value) (role : AgentRole) (board : Blackboard)
    (other : String)
    → ((can_write role key ≡ false)
        × ((message : String) × (write now key value role board
              ≡ (err (blackboard_permission_error message), board))))
      ⊎ ((can_write role key ≡ true)
          × ((i : BlackboardItem) × ((write now key value role board).0 ≡ ok i)
              × (item key (write now key value role board).1 ≡ some i)
              × (i.value ≡ value)
              × (i.role ≡ role)
              × (((item key board ≡ none) × (i.version ≡ 1))
                  ⊎ ((old : BlackboardItem) × (item key board ≡ some old)
                      × (i.version ≡ old.version + 1)))
              × ((key ≡ other)
                  ⊎ (item other (write now key value role board).1 ≡ item other board))))
unfolding write new_item item
write_lem now key value role board other = elim (Bool-cases (can_write role key)) [
  | inr e ↦ rw e (inl (refl, (_, refl)))
  | inl e ↦ rw e (
      inr (
        refl,
        (
          _,
          refl,
          get-put_self board key _,
          refl,
          refl,
          version_cases (get board key),
          elim (Bool-cases (str_eq key other)) [
            | inl same ↦ inl ((str_eq_iff key other).0 same)
            | inr distinct ↦ inr (get-put_ne board key other _ (str_eq-ne key other distinct))
          ],
        ),
      ))
]
