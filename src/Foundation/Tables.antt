-- ===== src/Foundation/Tables.antt =====
-- The foundation tables of growth_os/db/models.py. A column is `Option` where the object can hold
-- `None`, and a column that is not nullable is refused then. Rows stand in no particular order;
-- time stamps are left out, and so are the lengths that only the column's type bounds.
use growth_os.Prelude.{
  ℕ, Bool, true, false, not, ◌&&◌, Option, none, some, List, [], ◌∷◌, length, leb, ◌==◌,
  if◌then◌else◌,
}
use mathlib.Core.List.{reverse}
use growth_os.Text.{Text, text_eq}
use growth_os.Execution.Store.{Workspace, AuditEvent, any}

pub data MembershipRole : Type 0 where
  owner admin member viewer : MembershipRole

pub data ConnectorStatus : Type 0 where
  not_configured connected degraded disconnected : ConnectorStatus

pub data AutonomyLevel : Type 0 where
  observe_only recommend_only approval_required low_risk_auto : AutonomyLevel

pub record Tenant : Type 0 where
  pub id : ℕ
  pub name : Text

pub record BusinessProfile : Type 0 where
  pub id : ℕ
  pub tenant_id : ℕ
  pub workspace_id : ℕ
  pub company_name : Option Text
  pub business_description : Option Text
  pub products_services : Option Text
  pub target_audience : Option Text
  pub positioning : Option Text
  pub brand_voice : Option Text

-- A date is a count of days.
pub record PrimaryGrowthGoal : Type 0 where
  pub id : ℕ
  pub tenant_id : ℕ
  pub workspace_id : ℕ
  pub objective : Option Text
  pub success_definition : Option Text
  pub target_date : Option ℕ

pub record AutonomyPolicy : Type 0 where
  pub id : ℕ
  pub tenant_id : ℕ
  pub workspace_id : ℕ
  pub level : Option AutonomyLevel
  pub is_paused : Option Bool

pub record Competitor : Type 0 where
  pub id : ℕ
  pub tenant_id : ℕ
  pub workspace_id : ℕ
  pub name : Option Text
  pub website_url : Option Text
  pub notes : Option Text

pub record Membership : Type 0 where
  pub id : ℕ
  pub tenant_id : ℕ
  pub workspace_id : ℕ
  pub user_id : ℕ
  pub role : MembershipRole

pub record Site : Type 0 where
  pub id : ℕ
  pub tenant_id : ℕ
  pub workspace_id : ℕ
  pub name : Option Text
  pub url : Text

pub record Connector : Type 0 where
  pub id : ℕ
  pub tenant_id : ℕ
  pub workspace_id : ℕ
  pub site_id : ℕ
  pub kind : Text
  pub status : ConnectorStatus

pub record FoundationDb : Type 0 where
  pub tenants : List Tenant
  pub workspaces : List Workspace
  pub memberships : List Membership
  pub sites : List Site
  pub connectors : List Connector
  pub business_profiles : List BusinessProfile
  pub primary_growth_goals : List PrimaryGrowthGoal
  pub autonomy_policies : List AutonomyPolicy
  pub competitors : List Competitor
  pub audits : List AuditEvent

abbrev pub is_given : {A : Type 0} → Option A → Bool
is_given none = false
is_given (some a) = true

-- The foreign key to a tenant.
unfoldable pub has_tenant : FoundationDb → ℕ → Bool
has_tenant db tenant = any (λ t. t.id == tenant) db.tenants

-- The foreign key to a workspace and its tenant.
unfoldable pub has_workspace : FoundationDb → ℕ → ℕ → Bool
has_workspace db workspace_id tenant =
    any (λ w. w.id == workspace_id && w.tenant_id == tenant) db.workspaces

-- The constraints on a row of `workspaces` beside the other rows.
unfoldable pub admits_workspace : FoundationDb → Workspace → Bool
admits_workspace db w =
    has_tenant db w.tenant_id
    && not (
        any (λ v. not (v.id == w.id) && (v.tenant_id == w.tenant_id && text_eq v.name w.name))
          db.workspaces)

unfoldable pub admits_profile : FoundationDb → BusinessProfile → Bool
admits_profile db p =
    has_workspace db p.workspace_id p.tenant_id
    && (is_given p.company_name
        && not (
            any
              (λ q.
                not (q.id == p.id)
                && (q.tenant_id == p.tenant_id && q.workspace_id == p.workspace_id))
              db.business_profiles))

unfoldable pub admits_goal : FoundationDb → PrimaryGrowthGoal → Bool
admits_goal db g =
    has_workspace db g.workspace_id g.tenant_id
    && (is_given g.objective
        && not (
            any
              (λ h.
                not (h.id == g.id)
                && (h.tenant_id == g.tenant_id && h.workspace_id == g.workspace_id))
              db.primary_growth_goals))

unfoldable pub admits_policy : FoundationDb → AutonomyPolicy → Bool
admits_policy db p =
    has_workspace db p.workspace_id p.tenant_id
    && ((is_given p.level && is_given p.is_paused)
        && not (
            any
              (λ q.
                not (q.id == p.id)
                && (q.tenant_id == p.tenant_id && q.workspace_id == p.workspace_id))
              db.autonomy_policies))

unfoldable pub admits_membership : FoundationDb → Membership → Bool
admits_membership db m =
    has_workspace db m.workspace_id m.tenant_id
    && not (
        any
          (λ n.
            not (n.id == m.id)
            && (n.tenant_id == m.tenant_id
                && (n.workspace_id == m.workspace_id && n.user_id == m.user_id)))
          db.memberships)

unfoldable pub admits_site : FoundationDb → Site → Bool
admits_site db s =
    has_workspace db s.workspace_id s.tenant_id
    && (is_given s.name
        && not (
            any
              (λ t.
                not (t.id == s.id)
                && (t.tenant_id == s.tenant_id
                    && (t.workspace_id == s.workspace_id && text_eq t.url s.url)))
              db.sites))

-- The foreign key to a site, its workspace and its tenant.
unfoldable pub has_site_row : FoundationDb → ℕ → ℕ → ℕ → Bool
has_site_row db site_id workspace_id tenant =
    any (λ s. s.id == site_id && (s.workspace_id == workspace_id && s.tenant_id == tenant)) db.sites

unfoldable pub admits_connector : FoundationDb → Connector → Bool
admits_connector db c =
    has_site_row db c.site_id c.workspace_id c.tenant_id
    && not (
        any
          (λ d.
            not (d.id == c.id)
            && (d.tenant_id == c.tenant_id
                && (d.workspace_id == c.workspace_id
                    && (d.site_id == c.site_id && text_eq d.kind c.kind))))
          db.connectors)

-- `trim(...)`, which strips spaces only.
unfoldable pub trim_left : Text → Text
trim_left [] = []
trim_left (c ∷ rest) = if c == 0x20 then trim_left rest else c ∷ rest

unfoldable pub is_trimmed : Text → Bool
unfolding trim_left
is_trimmed s = text_eq s (reverse (trim_left (reverse (trim_left s))))

unfoldable pub has_length : ℕ → ℕ → Text → Bool
has_length low high s = leb low (length s) && leb (length s) high

-- A check on a nullable column.
abbrev pub unless_null : Option Text → (Text → Bool) → Bool
unless_null none test = true
unless_null (some s) test = test s

-- A check on a column that is not nullable, with that constraint.
abbrev pub given_and : Option Text → (Text → Bool) → Bool
given_and none test = false
given_and (some s) test = test s

abbrev pub same_name : Option Text → Option Text → Bool
same_name (some s) (some t) = text_eq s t
same_name _ _ = false

-- The checks on a row of `workspace_competitors`.
unfoldable pub is_clean_competitor : Competitor → Bool
is_clean_competitor c =
    given_and c.name (λ s. has_length 1 200 s && is_trimmed s)
    && (unless_null c.website_url (has_length 0 2048)
        && unless_null c.notes (λ s. has_length 1 4000 s && is_trimmed s))

unfoldable pub admits_competitor : FoundationDb → Competitor → Bool
admits_competitor db c =
    has_workspace db c.workspace_id c.tenant_id
    && (is_clean_competitor c
        && not (
            any
              (λ d.
                not (d.id == c.id)
                && (d.tenant_id == c.tenant_id
                    && (d.workspace_id == c.workspace_id && same_name d.name c.name)))
              db.competitors))
