-- ===== src/Api/Handlers.antt =====
-- The handlers of growth_os/api/foundation.py. A request whose tenant check fails is answered with
-- `NotFoundError`, and one whose input pydantic refuses with `validation`, before the handler runs.
use growth_os.Prelude.{
  ℕ, Bool, true, not, ◌&&◌, Option, List, [], ◌∷◌, leb, ◌==◌, if◌then◌else◌, Result, ok, err,
  raise_if, ◌>>◌,
}
use growth_os.Execution.Service.{ServiceError, not_found}
use growth_os.Foundation.{get_onboarding_status}
use growth_os.Foundation.Tables.{FoundationDb, has_length}
use growth_os.Foundation.Changes.{WorkspaceField, role, status}
use growth_os.Foundation.Service.{
  Reply, get_tenant, get_owned, list_owned, update_owned, workspace_table, membership_table,
  site_table, connector_table, create_tenant, update_tenant, create_workspace, create_membership,
  create_site, create_connector,
}
use growth_os.Foundation.Records.{
  Caller, create_business_profile, get_business_profile, update_business_profile,
  create_primary_growth_goal, get_primary_growth_goal, update_primary_growth_goal,
  create_autonomy_policy, get_autonomy_policy, update_autonomy_policy, create_competitor,
  list_competitors, get_competitor, update_competitor,
}
use growth_os.Api.Schemas.{
  BusinessProfileCreate, BusinessProfileUpdate, PrimaryGrowthGoalCreate, PrimaryGrowthGoalUpdate,
  AutonomyPolicyCreate, AutonomyPolicyUpdate, is_business_profile_create,
  is_business_profile_update, is_primary_growth_goal_create, is_primary_growth_goal_update,
  includes_policy_change, is_competitor_create, is_competitor_update, is_connector_create, succeeds,
  meets,
}
use growth_os.Api.Dumps.{
  profile_values, profile_changes, goal_values, goal_changes, policy_values, policy_changes,
  competitor_values, competitor_changes, site_changes,
}
use growth_os.Api.Routes.{
  Page, Body, tenant_body, onboarding_body, workspace_body, workspaces_body, profile_body,
  goal_body, policy_body, competitor_body, competitors_body, membership_body, memberships_body,
  site_body, sites_body, connector_body, connectors_body, ApiError, application, validation, Range,
  Draws, WorkspaceRoute, RecordRoute, CompetitorRoute, MembershipRoute, SiteRoute, ConnectorRoute,
  Route, Request, Orders,
}

-- The response with the state that the request leaves.
abbrev pub Answer : Type 0
Answer = Result ApiError Body × FoundationDb

-- What a call of the service answers.
abbrev pub answer : {A : Type 0} → (A → Body) → Reply A → Answer
answer body (ok a, db) = (ok (body a), db)
answer body (err e, db) = (err (application e), db)

abbrev pub answer_read : {A : Type 0} → (A → Body) → FoundationDb → Result ServiceError A → Answer
answer_read body db found = answer body (found, db)

-- `tenant_context`
unfoldable pub tenant_context : ℕ → ℕ → Result ServiceError ℕ
tenant_context tenant_id x_tenant_id =
    raise_if (not (x_tenant_id == tenant_id)) not_found >> ok tenant_id

-- `page`
unfoldable pub page_of : {A : Type 0} → Range → List A × ℕ → Page A
page_of range (items, total) = record {
  items = items;
  pagination = record { limit = range.limit; offset = range.offset; total = total };
}

abbrev pub caller : Option ℕ → Draws → Caller
caller actor_id draws = record { actor_id = actor_id; audit_id = draws.audit_id }

module _ (orders : Orders) (db : FoundationDb) (tenant : ℕ) (draws : Draws) where
  unfoldable pub handle_workspaces : WorkspaceRoute → Answer
  handle_workspaces (WorkspaceRoute.create payload) =
      answer workspace_body (create_workspace db tenant payload.name draws.row_id)
  handle_workspaces (WorkspaceRoute.list range) =
      answer_read (λ found. workspaces_body (page_of range found)) db
        (list_owned workspace_table orders.workspaces db tenant range.limit range.offset)
  handle_workspaces (WorkspaceRoute.get resource_id) =
      answer_read workspace_body db (get_owned workspace_table db tenant resource_id)
  handle_workspaces (WorkspaceRoute.update resource_id payload) =
      answer workspace_body
        (update_owned workspace_table db tenant resource_id (WorkspaceField.name payload.name ∷ []))

  unfoldable pub handle_business_profile :
      ℕ → RecordRoute BusinessProfileCreate BusinessProfileUpdate → Answer
  handle_business_profile workspace_id (RecordRoute.create payload) = answer profile_body (
      create_business_profile db tenant workspace_id (profile_values payload)
        (caller payload.actor_id draws) draws.row_id)
  handle_business_profile workspace_id RecordRoute.get =
      answer_read profile_body db (get_business_profile db tenant workspace_id)
  handle_business_profile workspace_id (RecordRoute.update payload) = answer profile_body (
      update_business_profile db tenant workspace_id (profile_changes payload)
        (caller payload.actor_id draws))

  unfoldable pub handle_primary_growth_goal :
      ℕ → RecordRoute PrimaryGrowthGoalCreate PrimaryGrowthGoalUpdate → Answer
  handle_primary_growth_goal workspace_id (RecordRoute.create payload) = answer goal_body (
      create_primary_growth_goal db tenant workspace_id (goal_values payload)
        (caller payload.actor_id draws) draws.row_id)
  handle_primary_growth_goal workspace_id RecordRoute.get =
      answer_read goal_body db (get_primary_growth_goal db tenant workspace_id)
  handle_primary_growth_goal workspace_id (RecordRoute.update payload) = answer goal_body (
      update_primary_growth_goal db tenant workspace_id (goal_changes payload)
        (caller payload.actor_id draws))

  unfoldable pub handle_autonomy_policy :
      ℕ → RecordRoute AutonomyPolicyCreate AutonomyPolicyUpdate → Answer
  handle_autonomy_policy workspace_id (RecordRoute.create payload) = answer policy_body (
      create_autonomy_policy db tenant workspace_id (policy_values payload)
        (caller payload.actor_id draws) draws.row_id)
  handle_autonomy_policy workspace_id RecordRoute.get =
      answer_read policy_body db (get_autonomy_policy db tenant workspace_id)
  handle_autonomy_policy workspace_id (RecordRoute.update payload) = answer policy_body (
      update_autonomy_policy db tenant workspace_id (policy_changes payload)
        (caller payload.actor_id draws))

  unfoldable pub handle_competitors : ℕ → CompetitorRoute → Answer
  handle_competitors workspace_id (CompetitorRoute.create payload) = answer competitor_body (
      create_competitor db tenant workspace_id (competitor_values payload)
        (caller payload.actor_id draws) draws.row_id)
  handle_competitors workspace_id (CompetitorRoute.list range) =
      answer_read (λ found. competitors_body (page_of range found)) db
        (list_competitors orders.competitors db tenant workspace_id range.limit range.offset)
  handle_competitors workspace_id (CompetitorRoute.get competitor_id) =
      answer_read competitor_body db (get_competitor db tenant workspace_id competitor_id)
  handle_competitors workspace_id (CompetitorRoute.update competitor_id payload) =
      answer competitor_body (
        update_competitor db tenant workspace_id competitor_id (competitor_changes payload)
          (caller payload.actor_id draws))

  unfoldable pub handle_memberships : MembershipRoute → Answer
  handle_memberships (MembershipRoute.create payload) =
      answer membership_body
        (create_membership db tenant payload.workspace_id payload.user_id payload.role draws.row_id)
  handle_memberships (MembershipRoute.list range) =
      answer_read (λ found. memberships_body (page_of range found)) db
        (list_owned membership_table orders.memberships db tenant range.limit range.offset)
  handle_memberships (MembershipRoute.get resource_id) =
      answer_read membership_body db (get_owned membership_table db tenant resource_id)
  handle_memberships (MembershipRoute.update resource_id payload) =
      answer membership_body
        (update_owned membership_table db tenant resource_id (role payload.role ∷ []))

  unfoldable pub handle_sites : SiteRoute → Answer
  handle_sites (SiteRoute.create payload) =
      answer site_body
        (create_site db tenant payload.workspace_id payload.name payload.url draws.row_id)
  handle_sites (SiteRoute.list range) =
      answer_read (λ found. sites_body (page_of range found)) db
        (list_owned site_table orders.sites db tenant range.limit range.offset)
  handle_sites (SiteRoute.get resource_id) =
      answer_read site_body db (get_owned site_table db tenant resource_id)
  handle_sites (SiteRoute.update resource_id payload) =
      answer site_body (update_owned site_table db tenant resource_id (site_changes payload))

  unfoldable pub handle_connector_statuses : ConnectorRoute → Answer
  handle_connector_statuses (ConnectorRoute.create payload) =
      answer connector_body
        (create_connector db tenant payload.workspace_id payload.site_id payload.kind draws.row_id)
  handle_connector_statuses (ConnectorRoute.list range) =
      answer_read (λ found. connectors_body (page_of range found)) db
        (list_owned connector_table orders.connectors db tenant range.limit range.offset)
  handle_connector_statuses (ConnectorRoute.get resource_id) =
      answer_read connector_body db (get_owned connector_table db tenant resource_id)
  handle_connector_statuses (ConnectorRoute.update resource_id payload) =
      answer connector_body
        (update_owned connector_table db tenant resource_id (status payload.status ∷ []))

  unfoldable pub handle_route : Route → Answer
  unfolding handle_workspaces handle_business_profile handle_primary_growth_goal
      handle_autonomy_policy handle_competitors handle_memberships handle_sites
      handle_connector_statuses
  handle_route (Route.onboarding_status workspace_id) =
      answer_read onboarding_body db (get_onboarding_status db tenant workspace_id)
  handle_route Route.get_tenant = answer_read tenant_body db (get_tenant db tenant)
  handle_route (Route.update_tenant payload) =
      answer tenant_body (update_tenant db tenant payload.name)
  handle_route (Route.workspaces route) = handle_workspaces route
  handle_route (Route.business_profile workspace_id route) =
      handle_business_profile workspace_id route
  handle_route (Route.primary_growth_goal workspace_id route) =
      handle_primary_growth_goal workspace_id route
  handle_route (Route.autonomy_policy workspace_id route) =
      handle_autonomy_policy workspace_id route
  handle_route (Route.competitors workspace_id route) = handle_competitors workspace_id route
  handle_route (Route.memberships route) = handle_memberships route
  handle_route (Route.sites route) = handle_sites route
  handle_route (Route.connector_statuses route) = handle_connector_statuses route

-- What pydantic demands of the input of a route.
abbrev is_range : Range → Bool
is_range range = leb 1 range.limit && leb range.limit 100

unfoldable pub is_valid : Route → Bool
is_valid (Route.update_tenant payload) = has_length 1 200 payload.name
is_valid (Route.workspaces (WorkspaceRoute.create payload)) = has_length 1 200 payload.name
is_valid (Route.workspaces (WorkspaceRoute.list range)) = is_range range
is_valid (Route.workspaces (WorkspaceRoute.update i payload)) = has_length 1 200 payload.name
is_valid (Route.business_profile w (RecordRoute.create payload)) =
    is_business_profile_create payload
is_valid (Route.business_profile w (RecordRoute.update payload)) =
    is_business_profile_update payload
is_valid (Route.primary_growth_goal w (RecordRoute.create payload)) =
    is_primary_growth_goal_create payload
is_valid (Route.primary_growth_goal w (RecordRoute.update payload)) =
    is_primary_growth_goal_update payload
is_valid (Route.autonomy_policy w (RecordRoute.update payload)) =
    succeeds (includes_policy_change payload)
is_valid (Route.competitors w (CompetitorRoute.create payload)) = is_competitor_create payload
is_valid (Route.competitors w (CompetitorRoute.list range)) = is_range range
is_valid (Route.competitors w (CompetitorRoute.update i payload)) = is_competitor_update payload
is_valid (Route.memberships (MembershipRoute.list range)) = is_range range
is_valid (Route.sites (SiteRoute.create payload)) = has_length 1 200 payload.name
is_valid (Route.sites (SiteRoute.list range)) = is_range range
is_valid (Route.sites (SiteRoute.update i payload)) = meets (has_length 1 200) payload.name
is_valid (Route.connector_statuses (ConnectorRoute.create payload)) = is_connector_create payload
is_valid (Route.connector_statuses (ConnectorRoute.list range)) = is_range range
is_valid _ = true

unfoldable pub handle : Orders → Request → FoundationDb → Answer
unfolding tenant_context handle_route is_valid
handle orders (Request.create_tenant payload tenant_id) db =
    if has_length 1 200 payload.name
    then answer tenant_body (create_tenant db payload.name tenant_id)
    else (err validation, db)
handle orders (Request.for_tenant tenant_id x_tenant_id draws route) db =
    elim (tenant_context tenant_id x_tenant_id) [
      | err e ↦ (err (application e), db)
      | ok tenant ↦
          if is_valid route then handle_route orders db tenant draws route else (err validation, db)
    ]

-- Requests one after another, and the state after them.
unfoldable pub handle_all : Orders → List Request → FoundationDb → FoundationDb
unfolding handle
handle_all orders [] db = db
handle_all orders (r ∷ rs) db = handle_all orders rs (handle orders r db).1
