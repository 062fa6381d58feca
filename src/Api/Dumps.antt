-- ===== src/Api/Dumps.antt =====
-- `payload.model_dump(exclude={"actor_id"}, exclude_unset=True)` of growth_os/api/foundation.py: the
-- supplied fields of an input in the order of their declarations.
use growth_os.Prelude.{Bool, Option, none, some, List, [], ◌∷◌, ◌++◌}
use growth_os.Text.{Text, codes}
use growth_os.Foundation.Changes.{
  ProfileField, company_name, business_description, products_services, target_audience, positioning,
  brand_voice, GoalField, objective, success_definition, target_date, PolicyField, level, is_paused,
  CompetitorField, website_url, notes, SiteField, url,
}
use growth_os.Api.Schemas.{
  Field, unset, supplied, BusinessProfileCreate, BusinessProfileUpdate, PrimaryGrowthGoalCreate,
  PrimaryGrowthGoalUpdate, AutonomyPolicyCreate, AutonomyPolicyUpdate, WorkspaceCompetitorCreate,
  WorkspaceCompetitorUpdate, SiteUpdate,
}

abbrev pub entry : {A F : Type 0} → (Option A → F) → Field A → List F
entry make unset = []
entry make (supplied v) = make v ∷ []

unfoldable pub profile_values : BusinessProfileCreate → List ProfileField
profile_values p =
    company_name (some p.company_name)
    ∷ (entry business_description p.business_description
        ++ (entry products_services p.products_services
            ++ (entry target_audience p.target_audience
                ++ (entry positioning p.positioning ++ entry brand_voice p.brand_voice))))

unfoldable pub profile_changes : BusinessProfileUpdate → List ProfileField
profile_changes p =
    entry company_name p.company_name
    ++ (entry business_description p.business_description
        ++ (entry products_services p.products_services
            ++ (entry target_audience p.target_audience
                ++ (entry positioning p.positioning ++ entry brand_voice p.brand_voice))))

unfoldable pub goal_values : PrimaryGrowthGoalCreate → List GoalField
goal_values g =
    objective (some g.objective)
    ∷ (entry success_definition g.success_definition ++ entry target_date g.target_date)

unfoldable pub goal_changes : PrimaryGrowthGoalUpdate → List GoalField
goal_changes g =
    entry objective g.objective
    ++ (entry success_definition g.success_definition ++ entry target_date g.target_date)

abbrev pub paused_entry : Option Bool → List PolicyField
paused_entry none = []
paused_entry (some b) = is_paused (some b) ∷ []

unfoldable pub policy_values : AutonomyPolicyCreate → List PolicyField
policy_values p = level (some p.level) ∷ paused_entry p.is_paused

unfoldable pub policy_changes : AutonomyPolicyUpdate → List PolicyField
policy_changes p = entry level p.level ++ entry is_paused p.is_paused

unfoldable pub competitor_values : WorkspaceCompetitorCreate → List CompetitorField
competitor_values c =
    CompetitorField.name (some c.name) ∷ (entry website_url c.website_url ++ entry notes c.notes)

unfoldable pub competitor_changes : WorkspaceCompetitorUpdate → List CompetitorField
competitor_changes c =
    entry CompetitorField.name c.name ++ (entry website_url c.website_url ++ entry notes c.notes)

-- Python's `str` of a URL or `None`.
abbrev pub str : Option Text → Text
str none = codes "None"
str (some t) = t

-- `changes["url"] = str(changes["url"])`, where it is supplied.
abbrev pub url_entry : Field Text → List SiteField
url_entry unset = []
url_entry (supplied v) = url (str v) ∷ []

unfoldable pub site_changes : SiteUpdate → List SiteField
site_changes s = entry SiteField.name s.name ++ url_entry s.url
