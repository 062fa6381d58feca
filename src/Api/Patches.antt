-- ===== src/Api/Patches.antt =====
-- What the validators of growth_os/api/schemas.py give the updates of growth_os/api/foundation.py.
pub mod Fields
use growth_os.Prelude.{
  ℕ, ◌≡◌, refl, ap, ◌∙◌, Bool, true, false, ◌||◌, Option, none, some, List, [], ◌++◌, ◌==◌, ok, err,
  raise_if, ◌>>◌, arith, ok_injective,
}
use growth_os.Text.{Text}
use growth_os.Execution.Store.Rows.{and_left, and_right}
use growth_os.Foundation.Tables.{
  AutonomyLevel, BusinessProfile, PrimaryGrowthGoal, AutonomyPolicy, FoundationDb, is_given,
  has_length, has_workspace,
}
use growth_os.Foundation.Changes.{
  company_name, business_description, products_services, target_audience, positioning, brand_voice,
  objective, success_definition, target_date, level, is_paused, set_profile, set_goal, set_policy,
  set_all,
}
use growth_os.Foundation.Service.{AuditedTable, Reply}
use growth_os.Foundation.Records.{Caller, find_record, update_record, profile_table}
use growth_os.Foundation.Records.View.{IsSingle, IsSingular}
use growth_os.Foundation.Records.Refines.{CanAudit}
use growth_os.Foundation.Records.Maps.{update_record-Refines}
use growth_os.Foundation.Records.Singles.{profile_single, goal_single, policy_single}
use growth_os.Api.Schemas.{
  Field, unset, supplied, is_cleared, meets, succeeds, BusinessProfileUpdate,
  PrimaryGrowthGoalUpdate, AutonomyPolicyUpdate, includes_profile_change, includes_goal_change,
  includes_policy_change, is_business_profile_update,
}
use growth_os.Api.Patches.Fields.{after, patched_profile, profile_changes-patched_profile}
use growth_os.Api.Dumps.{entry, profile_changes, goal_changes, policy_changes}
use growth_os.Api.Routes.{Body, profile_body, Draws, RecordRoute, Request, Route, Orders}
use growth_os.Api.Handlers.{
  caller, answer, tenant_context, handle_business_profile, handle_route, is_valid, handle,
}

-- A column that an entry of `changes` sets.
module _ {R C B : Type 0} (set : C → R → R) (look : R → B) where
  Keeps : List C → Type 0
  Keeps cs = (r : R) → look (set_all set cs r) ≡ look r

  entry-Keeps :
      {A : Type 0} (make : Option A → C) (f : Field A) (rest : List C)
      → ((v : Option A) (r : R) → look (set (make v) r) ≡ look r)
      → Keeps rest
      → Keeps (entry make f ++ rest)
  unfolding Keeps set_all
  entry-Keeps make unset rest same keeps r = keeps r
  entry-Keeps make (supplied v) rest same keeps r = keeps (set (make v) r) ∙ same v r

  nothing-Keeps : Keeps []
  unfolding Keeps set_all
  nothing-Keeps r = refl

  last-Keeps :
      {A : Type 0} (make : Option A → C) (f : Field A)
      → ((v : Option A) (r : R) → look (set (make v) r) ≡ look r)
      → Keeps (entry make f)
  unfolding Keeps set_all
  last-Keeps make unset same r = refl
  last-Keeps make (supplied v) same r = same v r

module _ {R C A : Type 0} (set : C → R → R) (look : R → Option A) where
  entry-after :
      (make : Option A → C) (f : Field A) (rest : List C) (r : R)
      → ((v : Option A) → look (set (make v) r) ≡ v)
      → Keeps set look rest
      → look (set_all set (entry make f ++ rest) r) ≡ after f (look r)
  unfolding Keeps set_all
  entry-after make unset rest r writes keeps = keeps r
  entry-after make (supplied v) rest r writes keeps = keeps (set (make v) r) ∙ writes v

after-is_given :
    {A : Type 0} (f : Field A) (old : Option A)
    → is_cleared f ≡ false
    → is_given old ≡ true
    → is_given (after f old) ≡ true
after-is_given unset old kept given = given
after-is_given (supplied none) old kept given = cc
after-is_given (supplied (some a)) old kept given = refl

-- Where both checks of a validator pass, neither condition holds.
checks_pass :
    {E : Type 0} (a b : Bool) (m n : E)
    → succeeds (raise_if a m >> raise_if b n) ≡ true
    → (a ≡ false) × (b ≡ false)
checks_pass true b m n h = cc
checks_pass false true m n h = cc
checks_pass false false m n h = (refl, refl)

profile_changes_name :
    (p : BusinessProfileUpdate) (r : BusinessProfile)
    → (set_all set_profile (profile_changes p) r).company_name ≡ after p.company_name r.company_name
unfolding profile_changes
profile_changes_name p r =
    let look : BusinessProfile → Option Text = λ x. x.company_name in
    entry-after set_profile look company_name p.company_name _ r (λ v. refl)
      (entry-Keeps set_profile look business_description p.business_description _ (λ v x. refl)
        (entry-Keeps set_profile look products_services p.products_services _ (λ v x. refl)
          (entry-Keeps set_profile look target_audience p.target_audience _ (λ v x. refl)
            (entry-Keeps set_profile look positioning p.positioning _ (λ v x. refl)
              (last-Keeps set_profile look brand_voice p.brand_voice (λ v x. refl))))))

goal_changes_objective :
    (g : PrimaryGrowthGoalUpdate) (r : PrimaryGrowthGoal)
    → (set_all set_goal (goal_changes g) r).objective ≡ after g.objective r.objective
unfolding goal_changes
goal_changes_objective g r =
    let look : PrimaryGrowthGoal → Option Text = λ x. x.objective in
    entry-after set_goal look objective g.objective _ r (λ v. refl)
      (entry-Keeps set_goal look success_definition g.success_definition _ (λ v x. refl)
        (last-Keeps set_goal look target_date g.target_date (λ v x. refl)))

policy_entries :
    (l : Field AutonomyLevel) (p : Field Bool) (r : AutonomyPolicy)
    → ((set_all set_policy (entry level l ++ entry is_paused p) r).level ≡ after l r.level)
      × ((set_all set_policy (entry level l ++ entry is_paused p) r).is_paused
          ≡ after p r.is_paused)
unfolding set_all
policy_entries unset unset r = (refl, refl)
policy_entries unset (supplied b) r = (refl, refl)
policy_entries (supplied v) unset r = (refl, refl)
policy_entries (supplied v) (supplied b) r = (refl, refl)

or_left : (a b : Bool) → (a || b) ≡ false → a ≡ false
or_left true b h = cc
or_left false b h = refl

or_right : (a b : Bool) → (a || b) ≡ false → b ≡ false
or_right true b h = cc
or_right false b h = h

nat_eq_refl : (n : ℕ) → (n == n) ≡ true
nat_eq_refl n = ground arith

profile_valid :
    (p : BusinessProfileUpdate)
    → is_business_profile_update p ≡ true
    → succeeds (includes_profile_change p) ≡ true
unfolding is_business_profile_update
profile_valid p h = and_right (meets (has_length 1 4000) p.brand_voice) _ (
    and_right (meets (has_length 1 4000) p.positioning) _ (
      and_right (meets (has_length 1 4000) p.target_audience) _ (
        and_right (meets (has_length 1 4000) p.products_services) _ (
          and_right (meets (has_length 1 4000) p.business_description) _
            (and_right (meets (has_length 1 200) p.company_name) _ h)))))

answer_ok :
    {A : Type 0} (body : A → Body) (r : Reply A) (a : A)
    → r.0 ≡ ok a
    → (answer body r).0 ≡ ok (body a)
answer_ok body (ok b, db) a h = ap (λ x. ok (body x)) (ok_injective h)
answer_ok body (err e, db) a h = cc

-- An update that its validator accepts leaves no required column empty: a complete profile, goal
-- or policy stays complete under the changes that the payload supplies.
pub valid_changes-complete :
    ((p : BusinessProfileUpdate) (r : BusinessProfile)
      → succeeds (includes_profile_change p) ≡ true
      → profile_single.complete r ≡ true
      → profile_single.complete (set_all set_profile (profile_changes p) r) ≡ true)
    × (((g : PrimaryGrowthGoalUpdate) (r : PrimaryGrowthGoal)
          → succeeds (includes_goal_change g) ≡ true
          → goal_single.complete r ≡ true
          → goal_single.complete (set_all set_goal (goal_changes g) r) ≡ true)
        × ((p : AutonomyPolicyUpdate) (r : AutonomyPolicy)
            → succeeds (includes_policy_change p) ≡ true
            → policy_single.complete r ≡ true
            → policy_single.complete (set_all set_policy (policy_changes p) r) ≡ true))
unfolding includes_profile_change includes_goal_change includes_policy_change policy_changes
valid_changes-complete = (
  λ p r valid full.
      ap is_given (profile_changes_name p r)
      ∙ after-is_given p.company_name r.company_name (checks_pass _ _ _ _ valid).1 full,
  (
    λ g r valid full.
        ap is_given (goal_changes_objective g r)
        ∙ after-is_given g.objective r.objective (checks_pass _ _ _ _ valid).1 full,
    λ p r valid full.
        let given = (checks_pass _ _ _ _ valid).1 in
        let entries = policy_entries p.level p.is_paused r in
        let first =
          ap is_given entries.0
          ∙ after-is_given p.level r.level (or_left (is_cleared p.level) _ given)
              (and_left _ (is_given r.is_paused) full) in
        let second =
          ap is_given entries.1
          ∙ after-is_given p.is_paused r.is_paused (or_right (is_cleared p.level) _ given)
              (and_right (is_given r.level) _ full) in
        rw (first, second),
  ),
)

-- An update of a row that stays complete returns the changed row.
update_record-ok :
    {A C : Type 0} (t : AuditedTable A C) (l : IsSingle t) (db : FoundationDb)
    (tenant workspace_id : ℕ) (changes : List C) (caller : Caller) (row : A)
    → IsSingular t (t.table.rows db)
    → CanAudit db tenant caller
    → has_workspace db workspace_id tenant ≡ true
    → find_record t db tenant workspace_id ≡ some row
    → l.complete (set_all t.table.set changes row) ≡ true
    → (update_record t db tenant workspace_id changes caller).0
      ≡ ok (set_all t.table.set changes row)
update_record-ok t l db tenant workspace_id changes caller row single can known found full =
    (update_record-Refines t l db tenant workspace_id changes caller single can).0
    ∙ (rw (known, found, full))

-- A `PATCH` of a business profile that the schema accepts, with the tenant's own header, succeeds
-- where the workspace has a profile, a complete one and no second, and the audit event can be
-- written: the answer shows the profile with each of the six supplied fields in the column of its
-- own name, `None` included, and every other column as it was.
pub patch_profile_succeeds :
    (orders : Orders) (db : FoundationDb) (tenant workspace_id : ℕ) (draws : Draws)
    (payload : BusinessProfileUpdate) (row : BusinessProfile)
    → is_business_profile_update payload ≡ true
    → IsSingular profile_table db.business_profiles
    → CanAudit db tenant (caller payload.actor_id draws)
    → has_workspace db workspace_id tenant ≡ true
    → find_record profile_table db tenant workspace_id ≡ some row
    → is_given row.company_name ≡ true
    → (handle orders
        (Request.for_tenant tenant tenant draws
          (Route.business_profile workspace_id (RecordRoute.update payload)))
        db).0
      ≡ ok (profile_body (patched_profile payload row))
unfolding handle tenant_context handle_route handle_business_profile is_valid
patch_profile_succeeds orders db tenant workspace_id draws payload row valid single can known found
      full =
    let validated = profile_valid payload valid in
    let done =
      update_record-ok profile_table profile_single db tenant workspace_id (profile_changes payload)
        (caller payload.actor_id draws) row single can known found
        (valid_changes-complete.0 payload row validated full) in
    rw (handle, tenant_context, nat_eq_refl tenant, valid)
      (answer_ok profile_body _ _ (done ∙ ap ok (profile_changes-patched_profile payload row)))
