-- ===== src/Blackboard/Tests.antt =====
-- The board of app/orchestration/multi_agent/blackboard.py on a write.
use cloud_agent_platform_dem.Prelude.{
  ◌+◌, String, true, false, ◌≡◌, refl, ◌⊎◌, none, some, [], ◌∷◌, str_eq, any,
}
use cloud_agent_platform_dem.Prelude.Exec.{ok, err, blackboard_permission_error}
use cloud_agent_platform_dem.Text.{is_one_of, head_of_split}
use cloud_agent_platform_dem.Value.{null}
use cloud_agent_platform_dem.Blackboard.{
  Blackboard, BlackboardItem, explorer, developer, can_write, write, item,
}
use cloud_agent_platform_dem.Blackboard.Authority.{write_lem}

abbrev board : Blackboard
board =
    (
      "finding:a",
      record { key = "finding:a"; value = null; role = explorer; version = 2; created_at = 1 },
    )
    ∷ []

abbrev key : String
key = "finding:a"

abbrev other : String
other = "risk:b"

may : can_write explorer "finding:a" ≡ true
unfolding can_write is_one_of head_of_split any str_eq
may = refl

may_not : can_write developer "finding:a" ≡ false
unfolding can_write is_one_of head_of_split any str_eq
may_not = refl

write_lem_example :
    ((can_write explorer key ≡ false)
      × ((message : String) × (write 5 key null explorer board
            ≡ (err (blackboard_permission_error message), board))))
    ⊎ ((can_write explorer key ≡ true)
        × ((i : BlackboardItem) × ((write 5 key null explorer board).0 ≡ ok i)
            × (item key (write 5 key null explorer board).1 ≡ some i)
            × (i.value ≡ null)
            × (i.role ≡ explorer)
            × (((item key board ≡ none) × (i.version ≡ 1))
                ⊎ ((old : BlackboardItem) × (item key board ≡ some old)
                    × (i.version ≡ old.version + 1)))
            × ((key ≡ other)
                ⊎ (item other (write 5 key null explorer board).1 ≡ item other board))))
write_lem_example = write_lem 5 key null explorer board other
