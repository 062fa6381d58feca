-- ===== src/Foundation.antt =====
-- The foundation of growth_os/services.py and growth_os/repositories.py. This file has the
-- onboarding status; of the rows its query reads the keys.
pub mod Missing
pub mod Tables
pub mod Changes
pub mod Service
pub mod Records
pub mod Isolation
pub mod Errors
mod Tests
use growth_os.Prelude.{
  ℕ, Bool, true, false, not, ◌&&◌, Option, none, some, List, [], ◌∷◌, map, ◌==◌, if◌then◌else◌,
  Result, ok, or_raise, ◌>>=◌,
}
use growth_os.Execution.Store.{any, find}
use growth_os.Execution.Service.{ServiceError, not_found}
use growth_os.Foundation.Tables.{
  Site, BusinessProfile, PrimaryGrowthGoal, AutonomyPolicy, FoundationDb,
}

-- The keys of a row that belongs to a workspace.
pub record Owned : Type 0 where
  pub tenant_id : ℕ
  pub workspace_id : ℕ

pub record OnboardingRecordStatus : Type 0 where
  pub has_site : Bool
  pub has_business_profile : Bool
  pub has_primary_growth_goal : Bool
  pub has_autonomy_policy : Bool

pub data OnboardingStep : Type 0 where
  site business_profile primary_growth_goal autonomy_policy : OnboardingStep

pub record OnboardingStatus : Type 0 where
  pub tenant_id : ℕ
  pub workspace_id : ℕ
  pub has_site : Bool
  pub has_business_profile : Bool
  pub has_primary_growth_goal : Bool
  pub has_autonomy_policy : Bool
  pub is_foundation_complete : Bool
  pub missing_steps : List OnboardingStep

abbrev pub site_keys : Site → Owned
site_keys s = record { tenant_id = s.tenant_id; workspace_id = s.workspace_id }

abbrev pub profile_keys : BusinessProfile → Owned
profile_keys p = record { tenant_id = p.tenant_id; workspace_id = p.workspace_id }

abbrev pub goal_keys : PrimaryGrowthGoal → Owned
goal_keys g = record { tenant_id = g.tenant_id; workspace_id = g.workspace_id }

abbrev pub policy_keys : AutonomyPolicy → Owned
policy_keys p = record { tenant_id = p.tenant_id; workspace_id = p.workspace_id }

-- `exists().where(...)`
unfoldable pub has_row : ℕ → ℕ → List Owned → Bool
has_row tenant workspace_id rows =
    any (λ r. r.tenant_id == tenant && r.workspace_id == workspace_id) rows

unfoldable pub get_onboarding_record_status : FoundationDb → ℕ → ℕ → OnboardingRecordStatus
get_onboarding_record_status db tenant workspace_id = record {
  has_site = has_row tenant workspace_id (map site_keys db.sites);
  has_business_profile = has_row tenant workspace_id (map profile_keys db.business_profiles);
  has_primary_growth_goal = has_row tenant workspace_id (map goal_keys db.primary_growth_goals);
  has_autonomy_policy = has_row tenant workspace_id (map policy_keys db.autonomy_policies);
}

abbrev pub ordered_steps : OnboardingRecordStatus → List (OnboardingStep × Bool)
ordered_steps status =
    (site, status.has_site)
    ∷ (business_profile, status.has_business_profile)
    ∷ (primary_growth_goal, status.has_primary_growth_goal)
    ∷ (autonomy_policy, status.has_autonomy_policy)
    ∷ []

-- `all(flags)`
unfoldable pub all_present : List (OnboardingStep × Bool) → Bool
all_present [] = true
all_present ((step, present) ∷ rest) = present && all_present rest

unfoldable pub missing : List (OnboardingStep × Bool) → List OnboardingStep
missing [] = []
missing ((step, present) ∷ rest) =
    let others = missing rest in if present then others else step ∷ others

unfoldable pub onboarding_status : ℕ → ℕ → OnboardingRecordStatus → OnboardingStatus
onboarding_status tenant workspace_id status = record {
  tenant_id = tenant;
  workspace_id = workspace_id;
  has_site = status.has_site;
  has_business_profile = status.has_business_profile;
  has_primary_growth_goal = status.has_primary_growth_goal;
  has_autonomy_policy = status.has_autonomy_policy;
  is_foundation_complete = all_present (ordered_steps status);
  missing_steps = missing (ordered_steps status);
}

unfoldable pub get_onboarding_status : FoundationDb → ℕ → ℕ → Result ServiceError OnboardingStatus
get_onboarding_status db tenant workspace_id = do
  workspace ←
      or_raise (find (λ w. w.id == workspace_id && w.tenant_id == tenant) db.workspaces) not_found
  ok (onboarding_status tenant workspace_id (get_onboarding_record_status db tenant workspace_id))
