-- ===== src/ReviewerDebug/Lifetime.antt =====
-- The life of a grant of app/orchestration/reviewer_debug/service.py.
use cloud_agent_platform_dem.Prelude.{
  ℕ, ◌+◌, String, true, false, ◌≡◌, refl, ap, ◌∙◌, ◌⊎◌, inl, inr, Option, none, some, List, [], ◌∷◌,
  ltb, Bool-cases, List-cases, Memᴰ, All, str_eq, str_eq_iff, Bool, sym,
}
use cloud_agent_platform_dem.Prelude.Dict.{
  get, put, get-put_self, put-found, get-put, some_injective,
}
use cloud_agent_platform_dem.Prelude.Exec.{ok}
use cloud_agent_platform_dem.Domain.{DateTime, seconds}
use cloud_agent_platform_dem.Failures.{FailureLedger, repeated_failures}
use cloud_agent_platform_dem.ReviewerDebug.{
  ReviewerDebugGrant, ReviewerDebugStatus, used, expired, revoked, Grants, is_active, look, mark,
  with_status, get_grant, mark_used, revoke, maybe_grant, should_trigger, new_grant,
}

-- What is done to grants that are there: reads at some time, and the two marks.
pub data Use : Type 0 where
  looked_up : DateTime → String → Use
  marked_used marked_revoked : String → Use

unfoldable pub handle : Use → Grants → Grants
handle (looked_up now k) grants = (get_grant now k grants).1
handle (marked_used k) grants = (mark_used k grants).1
handle (marked_revoked k) grants = (revoke k grants).1

unfoldable pub handle_all : List Use → Grants → Grants
unfolding handle
handle_all [] grants = grants
handle_all (u ∷ us) grants = handle_all us (handle u grants)

-- A write of a grant with another status leaves nothing active that was not.
with_status-stays :
    (grants : Grants) (k j : String) (g h : ReviewerDebugGrant) (status : ReviewerDebugStatus)
    (t : DateTime)
    → is_active t (with_status status h) ≡ false
    → get (put grants k (with_status status h)) j ≡ some g
    → is_active t g ≡ true
    → get grants j ≡ some g
with_status-stays grants k j g h status t ended found active =
    elim (put-found grants k j (with_status status h) g found) [
      | inl (same, is) ↦ absurd (cc (ap (is_active t) is, ended, active))
      | inr (other, old) ↦ old
    ]

mark-stays :
    (status : ReviewerDebugStatus) (j : String) (o : Option ReviewerDebugGrant) (grants : Grants)
    (k : String) (g : ReviewerDebugGrant) (t : DateTime)
    → ((h : ReviewerDebugGrant) → is_active t (with_status status h) ≡ false)
    → get (mark status j o grants).1 k ≡ some g
    → is_active t g ≡ true
    → get grants k ≡ some g
mark-stays status j none grants k g t ended found active = found
mark-stays status j (some h) grants k g t ended found active =
    with_status-stays grants j k g h status t (ended h) found active

look-stays :
    (now : DateTime) (j : String) (o : Option ReviewerDebugGrant) (grants : Grants) (k : String)
    (g : ReviewerDebugGrant) (t : DateTime)
    → get (look now j o grants).1 k ≡ some g
    → is_active t g ≡ true
    → get grants k ≡ some g
unfolding is_active with_status
look-stays now j none grants k g t found active = found
look-stays now j (some h) grants k g t found active = elim (Bool-cases (is_active now h)) [
  | inl e ↦ rw e at found
  | inr e ↦ with_status-stays grants j k g h expired t refl (rw e at found) active
]

handle-stays :
    (u : Use) (grants : Grants) (k : String) (g : ReviewerDebugGrant) (t : DateTime)
    → get (handle u grants) k ≡ some g
    → is_active t g ≡ true
    → get grants k ≡ some g
unfolding handle get_grant mark_used revoke is_active with_status
handle-stays (looked_up now j) grants k g t found active =
    look-stays now j (get grants j) grants k g t found active
handle-stays (marked_used j) grants k g t found active =
    mark-stays used j (get grants j) grants k g t (λ h. refl) found active
handle-stays (marked_revoked j) grants k g t found active =
    mark-stays revoked j (get grants j) grants k g t (λ h. refl) found active

-- What a grant that is still active has come through: reads at times when it was active, and marks of
-- other grants only.
abbrev pub Spares : String → ReviewerDebugGrant → Use → Type 0
Spares k g (looked_up now j) = str_eq j k ≡ true → is_active now g ≡ true
Spares k g (marked_used j) = str_eq j k ≡ false
Spares k g (marked_revoked j) = str_eq j k ≡ false

not_both : (b : Bool) → (b ≡ true → b ≡ false) → b ≡ false
not_both true h = h refl
not_both false h = refl

mark_spares :
    (status : ReviewerDebugStatus) (j : String) (o : Option ReviewerDebugGrant) (grants : Grants)
    (k : String) (g : ReviewerDebugGrant) (t : DateTime)
    → ((h : ReviewerDebugGrant) → is_active t (with_status status h) ≡ false)
    → get grants j ≡ o
    → get (mark status j o grants).1 k ≡ some g
    → is_active t g ≡ true
    → str_eq j k ≡ false
mark_spares status j none grants k g t ended held found active =
    not_both (str_eq j k) (λ same. absurd (cc (held, found, (str_eq_iff j k).0 same)))
mark_spares status j (some h) grants k g t ended held found active = not_both (str_eq j k) (λ same.
    absurd (
      let is : some (with_status status h) ≡ some g =
        rw (get-put grants j k (with_status status h), same) at found in
      cc (ap (is_active t) (some_injective (with_status status h) g is), ended h, active)))

look_spares :
    (now : DateTime) (j : String) (o : Option ReviewerDebugGrant) (grants : Grants) (k : String)
    (g : ReviewerDebugGrant) (t : DateTime)
    → get grants j ≡ o
    → get (look now j o grants).1 k ≡ some g
    → is_active t g ≡ true
    → str_eq j k ≡ true
    → is_active now g ≡ true
unfolding is_active with_status
look_spares now j none grants k g t held found active same =
    absurd (cc (held, found, (str_eq_iff j k).0 same))
look_spares now j (some h) grants k g t held found active same =
    elim (Bool-cases (is_active now h)) [
      | inl e ↦
          let there : get grants k ≡ some g = rw e at found in
          let is : some h ≡ some g = cc (held, there, (str_eq_iff j k).0 same) in
          ap (is_active now) (sym (some_injective h g is)) ∙ e
      | inr e ↦ absurd (
          let now_on : get (put grants j (with_status expired h)) k ≡ some g = rw e at found in
          let is : some (with_status expired h) ≡ some g =
            rw (get-put grants j k (with_status expired h), same) at now_on in
          let gone : is_active t (with_status expired h) ≡ false = refl in
          cc (ap (is_active t) (some_injective (with_status expired h) g is), gone, active))
    ]

handle-Spares :
    (u : Use) (grants : Grants) (k : String) (g : ReviewerDebugGrant) (t : DateTime)
    → get (handle u grants) k ≡ some g
    → is_active t g ≡ true
    → Spares k g u
unfolding handle get_grant mark_used revoke is_active with_status
handle-Spares (looked_up now j) grants k g t found active =
    look_spares now j (get grants j) grants k g t refl found active
handle-Spares (marked_used j) grants k g t found active =
    mark_spares used j (get grants j) grants k g t (λ h. refl) refl found active
handle-Spares (marked_revoked j) grants k g t found active =
    mark_spares revoked j (get grants j) grants k g t (λ h. refl) refl found active

-- No sequence of reads and marks makes a grant active, and none that is marked stays so: a grant that
-- is active after it, at any time, was there before it, the same in every field; none of the marks,
-- as used or as revoked, was of that grant; and every read of it was at a time when it was active. So
-- a grant that was used, revoked or seen expired is never active again.
pub handle_all-stays :
    (us : List Use) (grants : Grants) (k : String) (g : ReviewerDebugGrant) (t : DateTime)
    → get (handle_all us grants) k ≡ some g
    → is_active t g ≡ true
    → (get grants k ≡ some g) × All (Spares k g) us
unfolding handle_all
handle_all-stays [] grants k g t found active = (found, tt)
handle_all-stays (u ∷ us) grants k g t found active =
    let (later, spared) = handle_all-stays us (handle u grants) k g t found active in
    (handle-stays u grants k g t later active, (handle-Spares u grants k g t later active, spared))

-- A grant that is marked as used is reported as expired by the next read, at any time, and the
-- status "used" is lost.
pub mark_used-get_grant :
    (grants : Grants) (k : String) (g : ReviewerDebugGrant) (now : DateTime)
    → get grants k ≡ some g
    → ((mark_used k grants).0 ≡ ok (with_status used g))
      × ((get_grant now k (mark_used k grants).1).0 ≡ some (with_status expired g))
unfolding mark_used get_grant is_active with_status
mark_used-get_grant grants k g now found =
    rw found (refl, rw (get-put_self grants k (with_status used g)) refl)

-- The trigger grants exactly when some failure of the task has repeated: then the grant is stored
-- under its id and is active for fifteen minutes, whatever it is read at; otherwise nothing changes.
pub maybe_grant_lem :
    (threshold : ℕ) (ledger : FailureLedger) (id : String) (now : DateTime) (task_id : String)
    (allowed_tools : List String) (grants : Grants) (t : DateTime)
    → ((repeated_failures threshold task_id ledger ≡ [])
        × (maybe_grant threshold ledger id now task_id allowed_tools grants ≡ (none, grants)))
      ⊎ ((g : ReviewerDebugGrant) × (fingerprint : String) × Memᴰ fingerprint
            (repeated_failures threshold task_id ledger)
          × ((maybe_grant threshold ledger id now task_id allowed_tools grants).0 ≡ some g)
          × (get (maybe_grant threshold ledger id now task_id allowed_tools grants).1 id ≡ some g)
          × (g.task_id ≡ task_id)
          × (is_active t g ≡ ltb t (now + seconds 900)))
unfolding maybe_grant should_trigger is_active new_grant
maybe_grant_lem threshold ledger id now task_id allowed_tools grants t =
    elim (List-cases (repeated_failures threshold task_id ledger)) [
      | inl e ↦ inl (e, rw e refl)
      | inr (f, fs, e) ↦
          inr (rw e (_, f, Memᴰ.head refl, refl, get-put_self grants id _, refl, refl))
    ]
