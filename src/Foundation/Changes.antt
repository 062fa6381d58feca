-- ===== src/Foundation/Changes.antt =====
-- The fields that the calls of growth_os/services.py set on the foundation's rows: an entry of
-- `values` or `changes` is the field with its value.
use Prim.Native.Nat.{Ordering}
use Prim.Native.String.{String, compare}
use growth_os.Prelude.{ℕ, Bool, Option, List, [], ◌∷◌}
use growth_os.Text.{Text}
use growth_os.Execution.Store.{Workspace}
use growth_os.Foundation.Tables.{
  AutonomyLevel, MembershipRole, ConnectorStatus, BusinessProfile, PrimaryGrowthGoal,
  AutonomyPolicy, Competitor, Membership, Site, Connector,
}

pub data ProfileField : Type 0 where
  company_name business_description products_services : Option Text → ProfileField
  target_audience positioning brand_voice : Option Text → ProfileField

abbrev pub set_profile : ProfileField → BusinessProfile → BusinessProfile
set_profile (company_name v) p = record p { company_name = v }
set_profile (business_description v) p = record p { business_description = v }
set_profile (products_services v) p = record p { products_services = v }
set_profile (target_audience v) p = record p { target_audience = v }
set_profile (positioning v) p = record p { positioning = v }
set_profile (brand_voice v) p = record p { brand_voice = v }

abbrev pub profile_field_name : ProfileField → String
profile_field_name (company_name v) = "company_name"
profile_field_name (business_description v) = "business_description"
profile_field_name (products_services v) = "products_services"
profile_field_name (target_audience v) = "target_audience"
profile_field_name (positioning v) = "positioning"
profile_field_name (brand_voice v) = "brand_voice"

pub data GoalField : Type 0 where
  objective success_definition : Option Text → GoalField
  target_date : Option ℕ → GoalField

abbrev pub set_goal : GoalField → PrimaryGrowthGoal → PrimaryGrowthGoal
set_goal (objective v) g = record g { objective = v }
set_goal (success_definition v) g = record g { success_definition = v }
set_goal (target_date v) g = record g { target_date = v }

abbrev pub goal_field_name : GoalField → String
goal_field_name (objective v) = "objective"
goal_field_name (success_definition v) = "success_definition"
goal_field_name (target_date v) = "target_date"

pub data PolicyField : Type 0 where
  level : Option AutonomyLevel → PolicyField
  is_paused : Option Bool → PolicyField

abbrev pub set_policy : PolicyField → AutonomyPolicy → AutonomyPolicy
set_policy (level v) p = record p { level = v }
set_policy (is_paused v) p = record p { is_paused = v }

abbrev pub policy_field_name : PolicyField → String
policy_field_name (level v) = "level"
policy_field_name (is_paused v) = "is_paused"

pub data CompetitorField : Type 0 where
  name website_url notes : Option Text → CompetitorField

abbrev pub set_competitor : CompetitorField → Competitor → Competitor
set_competitor (CompetitorField.name v) c = record c { name = v }
set_competitor (website_url v) c = record c { website_url = v }
set_competitor (notes v) c = record c { notes = v }

abbrev pub competitor_field_name : CompetitorField → String
competitor_field_name (CompetitorField.name v) = "name"
competitor_field_name (website_url v) = "website_url"
competitor_field_name (notes v) = "notes"

pub data WorkspaceField : Type 0 where
  name : Text → WorkspaceField

abbrev pub set_workspace : WorkspaceField → Workspace → Workspace
set_workspace (WorkspaceField.name v) w = record w { name = v }

pub data MembershipField : Type 0 where
  role : MembershipRole → MembershipField

abbrev pub set_membership : MembershipField → Membership → Membership
set_membership (role v) m = record m { role = v }

pub data SiteField : Type 0 where
  name : Option Text → SiteField
  url : Text → SiteField

abbrev pub set_site : SiteField → Site → Site
set_site (SiteField.name v) s = record s { name = v }
set_site (url v) s = record s { url = v }

pub data ConnectorField : Type 0 where
  status : ConnectorStatus → ConnectorField

abbrev pub set_connector : ConnectorField → Connector → Connector
set_connector (status v) c = record c { status = v }

-- `for field, value in changes.items(): setattr(...)`
unfoldable pub set_all : {A C : Type 0} → (C → A → A) → List C → A → A
set_all set [] row = row
set_all set (c ∷ cs) row = set_all set cs (set c row)

place_name : String → List String → List String
place_name n [] = n ∷ []
place_name n (m ∷ ms) = elim (compare n m) [ Ordering.gt ↦ m ∷ place_name n ms | _ ↦ n ∷ m ∷ ms ]

-- `sorted(...)`
unfoldable pub sorted : List String → List String
unfolding place_name
sorted [] = []
sorted (n ∷ ns) = place_name n (sorted ns)
