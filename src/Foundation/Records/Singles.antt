-- ===== src/Foundation/Records/Singles.antt =====
-- The three tables of growth_os/services.py that have one row for a workspace, and sequences of
-- calls on them.
use growth_os.Prelude.{ℕ, ◌≡◌, refl, ◌&&◌, not, List, [], ◌∷◌}
use growth_os.Execution.Store.{any}
use growth_os.Foundation.Tables.{
  BusinessProfile, PrimaryGrowthGoal, AutonomyPolicy, FoundationDb, is_given, has_workspace,
  admits_profile, admits_goal, admits_policy,
}
use growth_os.Foundation.Changes.{
  ProfileField, company_name, business_description, products_services, target_audience, positioning,
  brand_voice, set_profile, GoalField, objective, success_definition, target_date, set_goal,
  PolicyField, level, is_paused, set_policy,
}
use growth_os.Foundation.Service.{AuditedTable}
use growth_os.Foundation.Records.{
  Caller, create_record, update_record, profile_table, goal_table, policy_table,
}
use growth_os.Foundation.Records.View.{clashes, IsSingle, IsSingular}
use growth_os.Foundation.Records.Singular.{create_record-IsSingular, update_record-IsSingular}

pub set_profile_keys :
    (c : ProfileField) (p : BusinessProfile)
    → ((set_profile c p).id ≡ p.id)
      × (((set_profile c p).tenant_id ≡ p.tenant_id)
          × ((set_profile c p).workspace_id ≡ p.workspace_id))
set_profile_keys (company_name v) p = (refl, (refl, refl))
set_profile_keys (business_description v) p = (refl, (refl, refl))
set_profile_keys (products_services v) p = (refl, (refl, refl))
set_profile_keys (target_audience v) p = (refl, (refl, refl))
set_profile_keys (positioning v) p = (refl, (refl, refl))
set_profile_keys (brand_voice v) p = (refl, (refl, refl))

pub set_goal_keys :
    (c : GoalField) (g : PrimaryGrowthGoal)
    → ((set_goal c g).id ≡ g.id)
      × (((set_goal c g).tenant_id ≡ g.tenant_id) × ((set_goal c g).workspace_id ≡ g.workspace_id))
set_goal_keys (objective v) g = (refl, (refl, refl))
set_goal_keys (success_definition v) g = (refl, (refl, refl))
set_goal_keys (target_date v) g = (refl, (refl, refl))

pub set_policy_keys :
    (c : PolicyField) (p : AutonomyPolicy)
    → ((set_policy c p).id ≡ p.id)
      × (((set_policy c p).tenant_id ≡ p.tenant_id)
          × ((set_policy c p).workspace_id ≡ p.workspace_id))
set_policy_keys (level v) p = (refl, (refl, refl))
set_policy_keys (is_paused v) p = (refl, (refl, refl))

pub admits_profile_lem :
    (db : FoundationDb) (r : BusinessProfile)
    → admits_profile db r ≡ (
        has_workspace db r.workspace_id r.tenant_id
        && (is_given r.company_name && not (any (clashes profile_table r) db.business_profiles)))
unfolding admits_profile
admits_profile_lem db r = refl

pub admits_goal_lem :
    (db : FoundationDb) (r : PrimaryGrowthGoal)
    → admits_goal db r ≡ (
        has_workspace db r.workspace_id r.tenant_id
        && (is_given r.objective && not (any (clashes goal_table r) db.primary_growth_goals)))
unfolding admits_goal
admits_goal_lem db r = refl

pub admits_policy_lem :
    (db : FoundationDb) (r : AutonomyPolicy)
    → admits_policy db r ≡ (
        has_workspace db r.workspace_id r.tenant_id
        && ((is_given r.level && is_given r.is_paused)
            && not (any (clashes policy_table r) db.autonomy_policies)))
unfolding admits_policy
admits_policy_lem db r = refl

abbrev pub profile_single : IsSingle profile_table
profile_single = record {
  complete = λ p. is_given p.company_name;
  admits_is = admits_profile_lem;
  rows_with = λ rs db. refl;
  rows_audits = λ db events. refl;
  audits_with = λ rs db. refl;
  tenants_with = λ rs db. refl;
  set_id = λ c r. (set_profile_keys c r).0;
  set_tenant = λ c r. (set_profile_keys c r).1.0;
  set_workspace = λ c r. (set_profile_keys c r).1.1;
  blank_id = λ i tenant workspace_id. refl;
  blank_tenant = λ i tenant workspace_id. refl;
  blank_workspace = λ i tenant workspace_id. refl;
}

abbrev pub goal_single : IsSingle goal_table
goal_single = record {
  complete = λ g. is_given g.objective;
  admits_is = admits_goal_lem;
  rows_with = λ rs db. refl;
  rows_audits = λ db events. refl;
  audits_with = λ rs db. refl;
  tenants_with = λ rs db. refl;
  set_id = λ c r. (set_goal_keys c r).0;
  set_tenant = λ c r. (set_goal_keys c r).1.0;
  set_workspace = λ c r. (set_goal_keys c r).1.1;
  blank_id = λ i tenant workspace_id. refl;
  blank_tenant = λ i tenant workspace_id. refl;
  blank_workspace = λ i tenant workspace_id. refl;
}

abbrev pub policy_single : IsSingle policy_table
policy_single = record {
  complete = λ p. is_given p.level && is_given p.is_paused;
  admits_is = admits_policy_lem;
  rows_with = λ rs db. refl;
  rows_audits = λ db events. refl;
  audits_with = λ rs db. refl;
  tenants_with = λ rs db. refl;
  set_id = λ c r. (set_policy_keys c r).0;
  set_tenant = λ c r. (set_policy_keys c r).1.0;
  set_workspace = λ c r. (set_policy_keys c r).1.1;
  blank_id = λ i tenant workspace_id. refl;
  blank_tenant = λ i tenant workspace_id. refl;
  blank_workspace = λ i tenant workspace_id. refl;
}

-- A call on a table, with its arguments.
pub data RecordCall (C : Type 0) : Type 0 where
  creation : ℕ → ℕ → List C → Caller → ℕ → RecordCall C
  change : ℕ → ℕ → List C → Caller → RecordCall C

unfoldable pub run_record_calls :
    {A C : Type 0} → AuditedTable A C → List (RecordCall C) → FoundationDb → FoundationDb
run_record_calls t [] db = db
run_record_calls t (creation tenant workspace_id values caller row_id ∷ calls) db =
    run_record_calls t calls (create_record t db tenant workspace_id values caller row_id).1
run_record_calls t (change tenant workspace_id changes caller ∷ calls) db =
    run_record_calls t calls (update_record t db tenant workspace_id changes caller).1

-- Through every sequence of creations and updates, with whatever identifiers they draw, a table of
-- this kind keeps at most one row for a workspace and never shares an identifier.
pub run_record_calls-IsSingular :
    {A C : Type 0} (t : AuditedTable A C) (l : IsSingle t) (calls : List (RecordCall C))
    (db : FoundationDb)
    → IsSingular t (t.table.rows db)
    → IsSingular t (t.table.rows (run_record_calls t calls db))
unfolding run_record_calls
run_record_calls-IsSingular t l [] db c = c
run_record_calls-IsSingular t l (creation tenant workspace_id values caller row_id ∷ calls) db c =
    run_record_calls-IsSingular t l calls
      (create_record t db tenant workspace_id values caller row_id).1
      (create_record-IsSingular t l db tenant workspace_id values caller row_id c)
run_record_calls-IsSingular t l (change tenant workspace_id changes caller ∷ calls) db c =
    run_record_calls-IsSingular t l calls (update_record t db tenant workspace_id changes caller).1
      (update_record-IsSingular t l db tenant workspace_id changes caller c)
