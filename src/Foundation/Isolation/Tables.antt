-- ===== src/Foundation/Isolation/Tables.antt =====
-- The tables of growth_os/db/models.py that growth_os/services.py writes.
use growth_os.Prelude.{◌≡◌, refl, ap, List}
use growth_os.Execution.Store.{Workspace}
use growth_os.Foundation.Tables.{
  FoundationDb, Membership, Site, Connector, BusinessProfile, PrimaryGrowthGoal, AutonomyPolicy,
  Competitor,
}
use growth_os.Foundation.Changes.{
  WorkspaceField, MembershipField, SiteField, ConnectorField, ProfileField, GoalField, PolicyField,
  CompetitorField, role, url, status, company_name, business_description, products_services,
  target_audience, positioning, brand_voice, objective, success_definition, target_date, level,
  is_paused, website_url, notes, set_workspace, set_membership, set_site, set_connector,
  set_profile, set_goal, set_policy, set_competitor,
}
use growth_os.Foundation.Service.{workspace_table, membership_table, site_table, connector_table}
use growth_os.Foundation.Records.{profile_table, goal_table, policy_table, competitor_table}
use growth_os.Foundation.Isolation.{rows_of, IsTable}

abbrev with_workspaces : List Workspace → FoundationDb → FoundationDb
with_workspaces rows db = record db { workspaces = rows }

workspace_kept :
    (c : WorkspaceField) (r : Workspace)
    → ((set_workspace c r).id ≡ r.id) × ((set_workspace c r).tenant_id ≡ r.tenant_id)
workspace_kept (WorkspaceField.name v) r = (refl, refl)

pub workspace-IsTable : IsTable workspace_table
workspace-IsTable = record {
  set_id = λ c r. (workspace_kept c r).0;
  set_tenant = λ c r. (workspace_kept c r).1;
  keyed = λ db k. k.workspaces;
  keyed_with = λ rs db k new. record {
    workspaces = new;
    memberships = k.memberships;
    sites = k.sites;
    connectors = k.connectors;
    business_profiles = k.business_profiles;
    primary_growth_goals = k.primary_growth_goals;
    autonomy_policies = k.autonomy_policies;
    competitors = k.competitors;
  };
  own_with = λ tenant rs db e. ap (λ rows. with_workspaces rows (rows_of tenant db)) e;
}

abbrev with_memberships : List Membership → FoundationDb → FoundationDb
with_memberships rows db = record db { memberships = rows }

membership_kept :
    (c : MembershipField) (r : Membership)
    → ((set_membership c r).id ≡ r.id) × ((set_membership c r).tenant_id ≡ r.tenant_id)
membership_kept (role v) r = (refl, refl)

pub membership-IsTable : IsTable membership_table
membership-IsTable = record {
  set_id = λ c r. (membership_kept c r).0;
  set_tenant = λ c r. (membership_kept c r).1;
  keyed = λ db k. k.memberships;
  keyed_with = λ rs db k new. record {
    workspaces = k.workspaces;
    memberships = new;
    sites = k.sites;
    connectors = k.connectors;
    business_profiles = k.business_profiles;
    primary_growth_goals = k.primary_growth_goals;
    autonomy_policies = k.autonomy_policies;
    competitors = k.competitors;
  };
  own_with = λ tenant rs db e. ap (λ rows. with_memberships rows (rows_of tenant db)) e;
}

abbrev with_sites : List Site → FoundationDb → FoundationDb
with_sites rows db = record db { sites = rows }

site_kept :
    (c : SiteField) (r : Site)
    → ((set_site c r).id ≡ r.id) × ((set_site c r).tenant_id ≡ r.tenant_id)
site_kept (SiteField.name v) r = (refl, refl)
site_kept (url v) r = (refl, refl)

pub site-IsTable : IsTable site_table
site-IsTable = record {
  set_id = λ c r. (site_kept c r).0;
  set_tenant = λ c r. (site_kept c r).1;
  keyed = λ db k. k.sites;
  keyed_with = λ rs db k new. record {
    workspaces = k.workspaces;
    memberships = k.memberships;
    sites = new;
    connectors = k.connectors;
    business_profiles = k.business_profiles;
    primary_growth_goals = k.primary_growth_goals;
    autonomy_policies = k.autonomy_policies;
    competitors = k.competitors;
  };
  own_with = λ tenant rs db e. ap (λ rows. with_sites rows (rows_of tenant db)) e;
}

abbrev with_connectors : List Connector → FoundationDb → FoundationDb
with_connectors rows db = record db { connectors = rows }

connector_kept :
    (c : ConnectorField) (r : Connector)
    → ((set_connector c r).id ≡ r.id) × ((set_connector c r).tenant_id ≡ r.tenant_id)
connector_kept (status v) r = (refl, refl)

pub connector-IsTable : IsTable connector_table
connector-IsTable = record {
  set_id = λ c r. (connector_kept c r).0;
  set_tenant = λ c r. (connector_kept c r).1;
  keyed = λ db k. k.connectors;
  keyed_with = λ rs db k new. record {
    workspaces = k.workspaces;
    memberships = k.memberships;
    sites = k.sites;
    connectors = new;
    business_profiles = k.business_profiles;
    primary_growth_goals = k.primary_growth_goals;
    autonomy_policies = k.autonomy_policies;
    competitors = k.competitors;
  };
  own_with = λ tenant rs db e. ap (λ rows. with_connectors rows (rows_of tenant db)) e;
}

abbrev with_business_profiles : List BusinessProfile → FoundationDb → FoundationDb
with_business_profiles rows db = record db { business_profiles = rows }

profile_kept :
    (c : ProfileField) (r : BusinessProfile)
    → ((set_profile c r).id ≡ r.id) × ((set_profile c r).tenant_id ≡ r.tenant_id)
profile_kept (company_name v) r = (refl, refl)
profile_kept (business_description v) r = (refl, refl)
profile_kept (products_services v) r = (refl, refl)
profile_kept (target_audience v) r = (refl, refl)
profile_kept (positioning v) r = (refl, refl)
profile_kept (brand_voice v) r = (refl, refl)

pub profile-IsTable : IsTable profile_table.table
profile-IsTable = record {
  set_id = λ c r. (profile_kept c r).0;
  set_tenant = λ c r. (profile_kept c r).1;
  keyed = λ db k. k.business_profiles;
  keyed_with = λ rs db k new. record {
    workspaces = k.workspaces;
    memberships = k.memberships;
    sites = k.sites;
    connectors = k.connectors;
    business_profiles = new;
    primary_growth_goals = k.primary_growth_goals;
    autonomy_policies = k.autonomy_policies;
    competitors = k.competitors;
  };
  own_with = λ tenant rs db e. ap (λ rows. with_business_profiles rows (rows_of tenant db)) e;
}

abbrev with_primary_growth_goals : List PrimaryGrowthGoal → FoundationDb → FoundationDb
with_primary_growth_goals rows db = record db { primary_growth_goals = rows }

goal_kept :
    (c : GoalField) (r : PrimaryGrowthGoal)
    → ((set_goal c r).id ≡ r.id) × ((set_goal c r).tenant_id ≡ r.tenant_id)
goal_kept (objective v) r = (refl, refl)
goal_kept (success_definition v) r = (refl, refl)
goal_kept (target_date v) r = (refl, refl)

pub goal-IsTable : IsTable goal_table.table
goal-IsTable = record {
  set_id = λ c r. (goal_kept c r).0;
  set_tenant = λ c r. (goal_kept c r).1;
  keyed = λ db k. k.primary_growth_goals;
  keyed_with = λ rs db k new. record {
    workspaces = k.workspaces;
    memberships = k.memberships;
    sites = k.sites;
    connectors = k.connectors;
    business_profiles = k.business_profiles;
    primary_growth_goals = new;
    autonomy_policies = k.autonomy_policies;
    competitors = k.competitors;
  };
  own_with = λ tenant rs db e. ap (λ rows. with_primary_growth_goals rows (rows_of tenant db)) e;
}

abbrev with_autonomy_policies : List AutonomyPolicy → FoundationDb → FoundationDb
with_autonomy_policies rows db = record db { autonomy_policies = rows }

policy_kept :
    (c : PolicyField) (r : AutonomyPolicy)
    → ((set_policy c r).id ≡ r.id) × ((set_policy c r).tenant_id ≡ r.tenant_id)
policy_kept (level v) r = (refl, refl)
policy_kept (is_paused v) r = (refl, refl)

pub policy-IsTable : IsTable policy_table.table
policy-IsTable = record {
  set_id = λ c r. (policy_kept c r).0;
  set_tenant = λ c r. (policy_kept c r).1;
  keyed = λ db k. k.autonomy_policies;
  keyed_with = λ rs db k new. record {
    workspaces = k.workspaces;
    memberships = k.memberships;
    sites = k.sites;
    connectors = k.connectors;
    business_profiles = k.business_profiles;
    primary_growth_goals = k.primary_growth_goals;
    autonomy_policies = new;
    competitors = k.competitors;
  };
  own_with = λ tenant rs db e. ap (λ rows. with_autonomy_policies rows (rows_of tenant db)) e;
}

abbrev with_competitors : List Competitor → FoundationDb → FoundationDb
with_competitors rows db = record db { competitors = rows }

competitor_kept :
    (c : CompetitorField) (r : Competitor)
    → ((set_competitor c r).id ≡ r.id) × ((set_competitor c r).tenant_id ≡ r.tenant_id)
competitor_kept (CompetitorField.name v) r = (refl, refl)
competitor_kept (website_url v) r = (refl, refl)
competitor_kept (notes v) r = (refl, refl)

pub competitor-IsTable : IsTable competitor_table.table
competitor-IsTable = record {
  set_id = λ c r. (competitor_kept c r).0;
  set_tenant = λ c r. (competitor_kept c r).1;
  keyed = λ db k. k.competitors;
  keyed_with = λ rs db k new. record {
    workspaces = k.workspaces;
    memberships = k.memberships;
    sites = k.sites;
    connectors = k.connectors;
    business_profiles = k.business_profiles;
    primary_growth_goals = k.primary_growth_goals;
    autonomy_policies = k.autonomy_policies;
    competitors = new;
  };
  own_with = λ tenant rs db e. ap (λ rows. with_competitors rows (rows_of tenant db)) e;
}
