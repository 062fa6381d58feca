-- ===== src/Foundation/Records.antt =====
-- growth_os/services.py: the methods of `FoundationService` on business profiles, growth goals,
-- autonomy policies and competitors. The first three have one row for a workspace, and their
-- methods are the same but for the table.
pub mod View
pub mod Keys
pub mod Singles
pub mod Refines
pub mod Creates
pub mod Changed
pub mod Maps
pub mod Effects
pub mod Singular
use Prim.Native.String.{String}
use growth_os.Prelude.{
  ℕ, Bool, true, false, ◌&&◌, Option, none, some, List, [], ◌∷◌, map, ◌==◌, if◌then◌else◌, Result,
  ok, err, or_raise, ◌>>=◌, ◌>>◌,
}
use growth_os.Execution.Store.{AuditEvent, field_details, find}
use growth_os.Execution.Service.{ServiceError, not_found, and_then, audit_event}
use growth_os.Execution.Listing.{page}
use growth_os.Foundation.Tables.{
  BusinessProfile, PrimaryGrowthGoal, AutonomyPolicy, Competitor, FoundationDb, admits_profile,
  admits_goal, admits_policy, admits_competitor,
}
use growth_os.Foundation.Changes.{
  ProfileField, set_profile, profile_field_name, GoalField, set_goal, goal_field_name, PolicyField,
  set_policy, policy_field_name, CompetitorField, set_competitor, competitor_field_name, set_all,
  sorted,
}
use growth_os.Foundation.Service.{
  Reply, Table, AuditedTable, insert_row, update_row, add_audit, persisted, get_owned,
  workspace_table,
}

-- Who calls, and the identifier that its audit event draws.
pub record Caller : Type 0 where
  pub actor_id : Option ℕ
  pub audit_id : ℕ

-- `_profile_audit` and the other three
unfoldable pub field_audit :
    {A C : Type 0} → AuditedTable A C → A → String → List C → Caller → AuditEvent
field_audit t row event_type fields caller =
    audit_event caller.audit_id (t.table.tenant_of row) event_type t.resource_type
      (t.table.row_id row) caller.actor_id
      (field_details (t.workspace_of row) (sorted (map t.field_name fields)))

-- The transaction of a creation, in the order in which the session sends its statements.
unfoldable pub add_record :
    {A C : Type 0} → AuditedTable A C → A → List C → Caller → FoundationDb → Option FoundationDb
add_record t row values caller db =
    and_then (insert_row t.table row db) (add_audit (field_audit t row t.created values caller))

unfoldable pub change_record :
    {A C : Type 0} → AuditedTable A C → A → List C → Caller → FoundationDb → Option FoundationDb
change_record t row changes caller db =
    and_then (update_row t.table row db) (add_audit (field_audit t row t.updated changes caller))

-- The object that a creation makes of `values`.
unfoldable pub new_record : {A C : Type 0} → AuditedTable A C → ℕ → ℕ → ℕ → List C → A
new_record t row_id tenant workspace_id values =
    set_all t.table.set values (t.blank row_id tenant workspace_id)

unfoldable pub create_record :
    {A C : Type 0} → AuditedTable A C → FoundationDb → ℕ → ℕ → List C → Caller → ℕ → Reply A
create_record t db tenant workspace_id values caller row_id =
    elim (get_owned workspace_table db tenant workspace_id) [
      | err e ↦ (err e, db)
      | ok workspace ↦
          let row = new_record t row_id tenant workspace_id values in
          persisted db row (add_record t row values caller db)
    ]

-- The query for the row of a workspace.
unfoldable pub find_record : {A C : Type 0} → AuditedTable A C → FoundationDb → ℕ → ℕ → Option A
find_record t db tenant workspace_id =
    find (λ r. t.table.tenant_of r == tenant && t.workspace_of r == workspace_id) (t.table.rows db)

unfoldable pub get_record :
    {A C : Type 0} → AuditedTable A C → FoundationDb → ℕ → ℕ → Result ServiceError A
get_record t db tenant workspace_id = do
  workspace ← get_owned workspace_table db tenant workspace_id
  or_raise (find_record t db tenant workspace_id) not_found

unfoldable pub update_record :
    {A C : Type 0} → AuditedTable A C → FoundationDb → ℕ → ℕ → List C → Caller → Reply A
update_record t db tenant workspace_id changes caller = elim (get_record t db tenant workspace_id) [
  | err e ↦ (err e, db)
  | ok row ↦
      let changed = set_all t.table.set changes row in
      persisted db changed (change_record t changed changes caller db)
]

abbrev pub profile_table : AuditedTable BusinessProfile ProfileField
profile_table = record {
  table = record {
    rows = λ db. db.business_profiles;
    with_rows = λ rows db. record db { business_profiles = rows };
    row_id = λ p. p.id;
    tenant_of = λ p. p.tenant_id;
    admits = admits_profile;
    set = set_profile;
  };
  workspace_of = λ p. p.workspace_id;
  blank = λ row_id tenant workspace_id. record {
    id = row_id;
    tenant_id = tenant;
    workspace_id = workspace_id;
    company_name = none;
    business_description = none;
    products_services = none;
    target_audience = none;
    positioning = none;
    brand_voice = none;
  };
  field_name = profile_field_name;
  resource_type = "workspace_business_profile";
  created = "workspace_business_profile.created";
  updated = "workspace_business_profile.updated";
}

abbrev pub goal_table : AuditedTable PrimaryGrowthGoal GoalField
goal_table = record {
  table = record {
    rows = λ db. db.primary_growth_goals;
    with_rows = λ rows db. record db { primary_growth_goals = rows };
    row_id = λ g. g.id;
    tenant_of = λ g. g.tenant_id;
    admits = admits_goal;
    set = set_goal;
  };
  workspace_of = λ g. g.workspace_id;
  blank = λ row_id tenant workspace_id. record {
    id = row_id;
    tenant_id = tenant;
    workspace_id = workspace_id;
    objective = none;
    success_definition = none;
    target_date = none;
  };
  field_name = goal_field_name;
  resource_type = "workspace_primary_growth_goal";
  created = "workspace_primary_growth_goal.created";
  updated = "workspace_primary_growth_goal.updated";
}

-- `AutonomyPolicy.__init__` sets `is_paused` where it is not given.
abbrev pub policy_table : AuditedTable AutonomyPolicy PolicyField
policy_table = record {
  table = record {
    rows = λ db. db.autonomy_policies;
    with_rows = λ rows db. record db { autonomy_policies = rows };
    row_id = λ p. p.id;
    tenant_of = λ p. p.tenant_id;
    admits = admits_policy;
    set = set_policy;
  };
  workspace_of = λ p. p.workspace_id;
  blank = λ row_id tenant workspace_id. record {
    id = row_id;
    tenant_id = tenant;
    workspace_id = workspace_id;
    level = none;
    is_paused = some true;
  };
  field_name = policy_field_name;
  resource_type = "workspace_autonomy_policy";
  created = "workspace_autonomy_policy.created";
  updated = "workspace_autonomy_policy.updated";
}

abbrev pub competitor_table : AuditedTable Competitor CompetitorField
competitor_table = record {
  table = record {
    rows = λ db. db.competitors;
    with_rows = λ rows db. record db { competitors = rows };
    row_id = λ c. c.id;
    tenant_of = λ c. c.tenant_id;
    admits = admits_competitor;
    set = set_competitor;
  };
  workspace_of = λ c. c.workspace_id;
  blank = λ row_id tenant workspace_id. record {
    id = row_id;
    tenant_id = tenant;
    workspace_id = workspace_id;
    name = none;
    website_url = none;
    notes = none;
  };
  field_name = competitor_field_name;
  resource_type = "workspace_competitor";
  created = "workspace_competitor.created";
  updated = "workspace_competitor.updated";
}

abbrev pub create_business_profile :
    FoundationDb → ℕ → ℕ → List ProfileField → Caller → ℕ → Reply BusinessProfile
create_business_profile = create_record profile_table

abbrev pub get_business_profile : FoundationDb → ℕ → ℕ → Result ServiceError BusinessProfile
get_business_profile = get_record profile_table

abbrev pub update_business_profile :
    FoundationDb → ℕ → ℕ → List ProfileField → Caller → Reply BusinessProfile
update_business_profile = update_record profile_table

abbrev pub create_primary_growth_goal :
    FoundationDb → ℕ → ℕ → List GoalField → Caller → ℕ → Reply PrimaryGrowthGoal
create_primary_growth_goal = create_record goal_table

abbrev pub get_primary_growth_goal : FoundationDb → ℕ → ℕ → Result ServiceError PrimaryGrowthGoal
get_primary_growth_goal = get_record goal_table

abbrev pub update_primary_growth_goal :
    FoundationDb → ℕ → ℕ → List GoalField → Caller → Reply PrimaryGrowthGoal
update_primary_growth_goal = update_record goal_table

abbrev pub create_autonomy_policy :
    FoundationDb → ℕ → ℕ → List PolicyField → Caller → ℕ → Reply AutonomyPolicy
create_autonomy_policy = create_record policy_table

abbrev pub get_autonomy_policy : FoundationDb → ℕ → ℕ → Result ServiceError AutonomyPolicy
get_autonomy_policy = get_record policy_table

abbrev pub update_autonomy_policy :
    FoundationDb → ℕ → ℕ → List PolicyField → Caller → Reply AutonomyPolicy
update_autonomy_policy = update_record policy_table

abbrev pub create_competitor :
    FoundationDb → ℕ → ℕ → List CompetitorField → Caller → ℕ → Reply Competitor
create_competitor = create_record competitor_table

-- `list_competitors`
unfoldable pub list_competitors :
    (List Competitor → List Competitor)
    → FoundationDb
    → ℕ
    → ℕ
    → ℕ
    → ℕ
    → Result ServiceError (List Competitor × ℕ)
list_competitors order db tenant workspace_id limit offset = do
  workspace ← get_owned workspace_table db tenant workspace_id
  ok (
      page (λ c. c.tenant_id == tenant && c.workspace_id == workspace_id) order limit offset
        db.competitors)

unfoldable pub get_competitor : FoundationDb → ℕ → ℕ → ℕ → Result ServiceError Competitor
get_competitor db tenant workspace_id competitor_id = do
  workspace ← get_owned workspace_table db tenant workspace_id
  or_raise
      (find
        (λ c. c.tenant_id == tenant && (c.workspace_id == workspace_id && c.id == competitor_id))
        db.competitors)
      not_found

unfoldable pub update_competitor :
    FoundationDb → ℕ → ℕ → ℕ → List CompetitorField → Caller → Reply Competitor
update_competitor db tenant workspace_id competitor_id changes caller =
    elim (get_competitor db tenant workspace_id competitor_id) [
      | err e ↦ (err e, db)
      | ok row ↦
          let changed = set_all set_competitor changes row in
          persisted db changed (change_record competitor_table changed changes caller db)
    ]
