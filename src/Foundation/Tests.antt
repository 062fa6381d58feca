-- ===== src/Foundation/Tests.antt =====
-- The onboarding status on concrete data.
use growth_os.Prelude.{
  ◌≡◌, refl, sym, ap, ◌∙◌, ◌↔◌, inl, inr, true, false, some, none, [], ◌∷◌, Within, ok, ◌==◌,
}
use growth_os.Execution.Store.{any, find}
use growth_os.Foundation.{
  OnboardingStep, primary_growth_goal, autonomy_policy, OnboardingStatus, has_row,
  get_onboarding_record_status, missing, onboarding_status, get_onboarding_status,
}
use growth_os.Text.{codes}
use growth_os.Foundation.Tables.{
  has_tenant, BusinessProfile, PrimaryGrowthGoal, Site, FoundationDb, has_workspace, AutonomyLevel,
}
use growth_os.Foundation.Changes.{company_name, brand_voice, level, set_profile, set_all, sorted}
use growth_os.Foundation.Records.{
  Caller, create_record, update_record, new_record, profile_table, policy_table,
}
use growth_os.Foundation.Records.View.{view, Refines, create_in, update_in, IsSingular}
use growth_os.Foundation.Records.Refines.{CanAudit}
use growth_os.Foundation.Records.Maps.{create_record-Refines, update_record-Refines}
use growth_os.Foundation.Records.Singles.{
  profile_single, policy_single, creation, change, run_record_calls, run_record_calls-IsSingular,
}
use growth_os.Foundation.Missing.{Done, get_onboarding_status-Done}

abbrev profile_row : BusinessProfile
profile_row = record {
  id = 11;
  tenant_id = 1;
  workspace_id = 7;
  company_name = some (codes "Acme");
  business_description = none;
  products_services = none;
  target_audience = none;
  positioning = none;
  brand_voice = none;
}

abbrev goal_row : PrimaryGrowthGoal
goal_row = record {
  id = 12;
  tenant_id = 2;
  workspace_id = 8;
  objective = some (codes "Grow");
  success_definition = none;
  target_date = none;
}

abbrev site_row : Site
site_row = record {
  id = 20;
  tenant_id = 1;
  workspace_id = 7;
  name = some (codes "Shop");
  url = codes "https://shop.example/";
}

abbrev db : FoundationDb
db = record {
  tenants = record { id = 1; name = codes "One" } ∷ record { id = 2; name = codes "Two" } ∷ [];
  workspaces =
      record { id = 7; tenant_id = 1; name = codes "Main" }
      ∷ record { id = 8; tenant_id = 2; name = codes "Main" }
      ∷ [];
  memberships = [];
  sites = site_row ∷ [];
  connectors = [];
  business_profiles = profile_row ∷ [];
  primary_growth_goals = goal_row ∷ [];
  autonomy_policies = [];
  competitors = [];
  audits = [];
}

abbrev reported : OnboardingStatus
reported = onboarding_status 1 7 (get_onboarding_record_status db 1 7)

missing_two : reported.missing_steps ≡ (primary_growth_goal ∷ autonomy_policy ∷ [])
unfolding onboarding_status get_onboarding_record_status has_row any missing
missing_two = refl

reported_ok : get_onboarding_status db 1 7 ≡ ok reported
unfolding get_onboarding_status find
reported_ok = refl

get_onboarding_status-Done_example :
    ((step : OnboardingStep) → Within step reported.missing_steps ↔ (Done db 1 7 step → ⊥))
    × ((reported.is_foundation_complete ≡ true) ↔ (reported.missing_steps ≡ []))
get_onboarding_status-Done_example = get_onboarding_status-Done db 1 7 reported reported_ok

abbrev caller : Caller
caller = record { actor_id = some 5; audit_id = 90 }

sorted_names :
    sorted ("level" ∷ "is_paused" ∷ "company_name" ∷ [])
    ≡ "company_name" ∷ "is_paused" ∷ "level" ∷ []
unfolding sorted
sorted_names = refl

new_id : any (λ r. r.id == 30) db.autonomy_policies ≡ false
unfolding any
new_id = refl

can_audit : CanAudit db 1 caller
unfolding any has_tenant
can_audit = (refl, refl)

profiles-IsSingular : IsSingular profile_table db.business_profiles
profiles-IsSingular = record {
  one_row = λ r s wr ws e. elim wr [
    | inl er ↦ elim ws [ inl es ↦ er ∙ sym es | inr ms ↦ absurd ms ]
    | inr mr ↦ absurd mr
  ];
  one_each = λ r s wr ws e f. elim wr [
    | inl er ↦ elim ws [ inl es ↦ ap (λ x. x.id) (er ∙ sym es) | inr ms ↦ absurd ms ]
    | inr mr ↦ absurd mr
  ];
}

create_record-Refines_example :
    Refines policy_table
      (create_record policy_table db 1 7 (level (some AutonomyLevel.observe_only) ∷ []) caller 30)
      (create_in
        (has_workspace db 7 1)
        (policy_single.complete
          (new_record policy_table 30 1 7 (level (some AutonomyLevel.observe_only) ∷ [])))
        (view policy_table db)
        1
        7
        (new_record policy_table 30 1 7 (level (some AutonomyLevel.observe_only) ∷ [])))
create_record-Refines_example =
    create_record-Refines policy_table policy_single db 1 7
      (level (some AutonomyLevel.observe_only) ∷ []) caller 30 new_id can_audit

update_record-Refines_example :
    Refines profile_table
      (update_record profile_table db 1 7 (brand_voice (some (codes "Calm")) ∷ []) caller)
      (update_in
        (has_workspace db 7 1)
        profile_single.complete
        (set_all set_profile (brand_voice (some (codes "Calm")) ∷ []))
        (view profile_table db)
        1
        7)
update_record-Refines_example =
    update_record-Refines profile_table profile_single db 1 7
      (brand_voice (some (codes "Calm")) ∷ []) caller profiles-IsSingular can_audit

run_record_calls-IsSingular_example :
    IsSingular profile_table
      (run_record_calls profile_table
        (creation 1 7 (company_name (some (codes "Other")) ∷ []) caller 31
          ∷ change 1 7 (company_name none ∷ []) caller
          ∷ [])
        db).business_profiles
run_record_calls-IsSingular_example =
    run_record_calls-IsSingular profile_table profile_single
      (creation 1 7 (company_name (some (codes "Other")) ∷ []) caller 31
        ∷ change 1 7 (company_name none ∷ []) caller
        ∷ [])
      db profiles-IsSingular
