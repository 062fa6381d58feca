-- ===== src/Api/Schemas.antt =====
-- The inputs of growth_os/api/schemas.py for the foundation, with what their fields and validators
-- demand. An input holds what pydantic has parsed: a text without the white space around it, and
-- for an `AnyHttpUrl` the text that `str` gives.
use Prim.Native.String.{String}
use growth_os.Prelude.{
  ℕ, Bool, true, false, not, ◌&&◌, ◌||◌, Option, none, some, [], ◌∷◌, leb, ◌==◌, Result, ok, err,
  raise_if, ◌>>◌,
}
use growth_os.Text.{Text}
use growth_os.Foundation.Tables.{MembershipRole, ConnectorStatus, AutonomyLevel, has_length}

-- An optional field of an input: absent, or with its value, which `None` is too.
pub data Field (A : Type 0) : Type 0 where
  unset : Field A
  supplied : Option A → Field A

abbrev pub is_supplied : {A : Type 0} → Field A → Bool
is_supplied unset = false
is_supplied (supplied v) = true

-- The field is supplied and its value is `None`.
abbrev pub is_cleared : {A : Type 0} → Field A → Bool
is_cleared unset = false
is_cleared (supplied none) = true
is_cleared (supplied (some a)) = false

-- A demand on the value, where there is one.
abbrev pub meets : {A : Type 0} → (A → Bool) → Field A → Bool
meets test unset = true
meets test (supplied none) = true
meets test (supplied (some a)) = test a

abbrev pub succeeds : {E A : Type 0} → Result E A → Bool
succeeds (ok a) = true
succeeds (err e) = false

pub record TenantCreate : Type 0 where
  pub name : Text

pub record TenantUpdate : Type 0 where
  pub name : Text

pub record WorkspaceCreate : Type 0 where
  pub name : Text

pub record WorkspaceUpdate : Type 0 where
  pub name : Text

pub record BusinessProfileCreate : Type 0 where
  pub company_name : Text
  pub business_description : Field Text
  pub products_services : Field Text
  pub target_audience : Field Text
  pub positioning : Field Text
  pub brand_voice : Field Text
  pub actor_id : Option ℕ

pub record BusinessProfileUpdate : Type 0 where
  pub company_name : Field Text
  pub business_description : Field Text
  pub products_services : Field Text
  pub target_audience : Field Text
  pub positioning : Field Text
  pub brand_voice : Field Text
  pub actor_id : Option ℕ

unfoldable pub is_business_profile_create : BusinessProfileCreate → Bool
is_business_profile_create p =
    has_length 1 200 p.company_name
    && (meets (has_length 1 4000) p.business_description
        && (meets (has_length 1 4000) p.products_services
            && (meets (has_length 1 4000) p.target_audience
                && (meets (has_length 1 4000) p.positioning
                    && meets (has_length 1 4000) p.brand_voice))))

unfoldable pub includes_profile_change : BusinessProfileUpdate → Result String (Unit {0})
includes_profile_change p =
    raise_if
      (not (
        is_supplied p.company_name
        || (is_supplied p.business_description
            || (is_supplied p.products_services
                || (is_supplied p.target_audience
                    || (is_supplied p.positioning || is_supplied p.brand_voice))))))
      "At least one profile field must be updated"
    >> raise_if (is_cleared p.company_name) "Company name cannot be cleared"

unfoldable pub is_business_profile_update : BusinessProfileUpdate → Bool
is_business_profile_update p =
    meets (has_length 1 200) p.company_name
    && (meets (has_length 1 4000) p.business_description
        && (meets (has_length 1 4000) p.products_services
            && (meets (has_length 1 4000) p.target_audience
                && (meets (has_length 1 4000) p.positioning
                    && (meets (has_length 1 4000) p.brand_voice
                        && succeeds (includes_profile_change p))))))

pub record PrimaryGrowthGoalCreate : Type 0 where
  pub objective : Text
  pub success_definition : Field Text
  pub target_date : Field ℕ
  pub actor_id : Option ℕ

pub record PrimaryGrowthGoalUpdate : Type 0 where
  pub objective : Field Text
  pub success_definition : Field Text
  pub target_date : Field ℕ
  pub actor_id : Option ℕ

unfoldable pub is_primary_growth_goal_create : PrimaryGrowthGoalCreate → Bool
is_primary_growth_goal_create g =
    has_length 1 2000 g.objective && meets (has_length 1 2000) g.success_definition

unfoldable pub includes_goal_change : PrimaryGrowthGoalUpdate → Result String (Unit {0})
includes_goal_change g =
    raise_if
      (not (
        is_supplied g.objective || (is_supplied g.success_definition || is_supplied g.target_date)))
      "At least one goal field must be updated"
    >> raise_if (is_cleared g.objective) "Objective cannot be cleared"

unfoldable pub is_primary_growth_goal_update : PrimaryGrowthGoalUpdate → Bool
is_primary_growth_goal_update g =
    meets (has_length 1 2000) g.objective
    && (meets (has_length 1 2000) g.success_definition && succeeds (includes_goal_change g))

-- Without `is_paused` the default stands in the object, and `exclude_unset` leaves it out.
pub record AutonomyPolicyCreate : Type 0 where
  pub level : AutonomyLevel
  pub is_paused : Option Bool
  pub actor_id : Option ℕ

pub record AutonomyPolicyUpdate : Type 0 where
  pub level : Field AutonomyLevel
  pub is_paused : Field Bool
  pub actor_id : Option ℕ

unfoldable pub includes_policy_change : AutonomyPolicyUpdate → Result String (Unit {0})
includes_policy_change p =
    raise_if (not (is_supplied p.level || is_supplied p.is_paused))
      "At least one autonomy policy field must be updated"
    >> raise_if (is_cleared p.level || is_cleared p.is_paused)
        "Autonomy policy fields cannot be cleared"

pub record WorkspaceCompetitorCreate : Type 0 where
  pub name : Text
  pub website_url : Field Text
  pub notes : Field Text
  pub actor_id : Option ℕ

pub record WorkspaceCompetitorUpdate : Type 0 where
  pub name : Field Text
  pub website_url : Field Text
  pub notes : Field Text
  pub actor_id : Option ℕ

unfoldable pub is_competitor_create : WorkspaceCompetitorCreate → Bool
is_competitor_create c =
    has_length 1 200 c.name
    && (meets (has_length 0 2048) c.website_url && meets (has_length 1 4000) c.notes)

unfoldable pub includes_competitor_change : WorkspaceCompetitorUpdate → Result String (Unit {0})
includes_competitor_change c =
    raise_if (not (is_supplied c.name || (is_supplied c.website_url || is_supplied c.notes)))
      "At least one competitor field must be updated"
    >> raise_if (is_cleared c.name) "Competitor name cannot be cleared"

unfoldable pub is_competitor_update : WorkspaceCompetitorUpdate → Bool
is_competitor_update c =
    meets (has_length 1 200) c.name
    && (meets (has_length 0 2048) c.website_url
        && (meets (has_length 1 4000) c.notes && succeeds (includes_competitor_change c)))

pub record MembershipCreate : Type 0 where
  pub workspace_id : ℕ
  pub user_id : ℕ
  pub role : MembershipRole

pub record MembershipUpdate : Type 0 where
  pub role : MembershipRole

pub record SiteCreate : Type 0 where
  pub workspace_id : ℕ
  pub name : Text
  pub url : Text

pub record SiteUpdate : Type 0 where
  pub name : Field Text
  pub url : Field Text

pub record ConnectorStatusCreate : Type 0 where
  pub workspace_id : ℕ
  pub site_id : ℕ
  pub kind : Text

pub record ConnectorStatusUpdate : Type 0 where
  pub status : ConnectorStatus

-- `[a-z0-9_-]`
abbrev pub is_kind_char : ℕ → Bool
is_kind_char c =
    (leb 0x61 c && leb c 0x7A) || ((leb 0x30 c && leb c 0x39) || (c == 0x5F || c == 0x2D))

unfoldable pub all_kind_chars : Text → Bool
all_kind_chars [] = true
all_kind_chars (c ∷ rest) = is_kind_char c && all_kind_chars rest

unfoldable pub is_connector_create : ConnectorStatusCreate → Bool
is_connector_create c = has_length 1 100 c.kind && all_kind_chars c.kind
