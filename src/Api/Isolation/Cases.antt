-- ===== src/Api/Isolation/Cases.antt =====
-- What it takes for a predicate to hold of every answer of growth_os/api/foundation.py: that it
-- holds of the answer of each route.
use growth_os.Prelude.{ℕ, ◌≡◌, refl, inl, inr, [], ◌∷◌, ◌==◌, Bool-cases, err}
use growth_os.Execution.Store.Rows.{nat_eq_sound}
use growth_os.Foundation.{get_onboarding_status}
use growth_os.Foundation.Tables.{FoundationDb, has_length}
use growth_os.Foundation.Changes.{WorkspaceField, role, status}
use growth_os.Foundation.Service.{
  workspace_table, membership_table, site_table, connector_table, get_tenant, get_owned, list_owned,
  update_owned, create_tenant, update_tenant, create_workspace, create_membership, create_site,
  create_connector,
}
use growth_os.Foundation.Records.{
  profile_table, goal_table, policy_table, competitor_table, create_record, get_record,
  update_record, list_competitors, get_competitor, update_competitor,
}
use growth_os.Api.Schemas.{
  TenantCreate, TenantUpdate, WorkspaceCreate, WorkspaceUpdate, BusinessProfileCreate,
  BusinessProfileUpdate, PrimaryGrowthGoalCreate, PrimaryGrowthGoalUpdate, AutonomyPolicyCreate,
  AutonomyPolicyUpdate, WorkspaceCompetitorCreate, WorkspaceCompetitorUpdate, MembershipCreate,
  MembershipUpdate, SiteCreate, SiteUpdate, ConnectorStatusCreate, ConnectorStatusUpdate,
}
use growth_os.Api.Dumps.{
  profile_values, profile_changes, goal_values, goal_changes, policy_values, policy_changes,
  competitor_values, competitor_changes, site_changes,
}
use growth_os.Api.Routes.{
  tenant_body, onboarding_body, workspace_body, workspaces_body, profile_body, goal_body,
  policy_body, competitor_body, competitors_body, membership_body, memberships_body, site_body,
  sites_body, connector_body, connectors_body, ApiError, Range, Draws, WorkspaceRoute, RecordRoute,
  CompetitorRoute, MembershipRoute, SiteRoute, ConnectorRoute, Route, Request, Orders,
}
use growth_os.Api.Handlers.{
  caller, Answer, answer, answer_read, page_of, tenant_context, handle_workspaces,
  handle_business_profile, handle_primary_growth_goal, handle_autonomy_policy, handle_competitors,
  handle_memberships, handle_sites, handle_connector_statuses, handle_route, is_valid, handle,
}
use growth_os.Api.Isolation.{sender}

pub record Covers (orders : Orders) (db : FoundationDb) (tenant : ℕ) (draws : Draws)
    (Q : Answer → Type 0) : Type 0 where
  pub onboarding : (w : ℕ) → Q (answer_read onboarding_body db (get_onboarding_status db tenant w))
  pub tenant_got : Q (answer_read tenant_body db (get_tenant db tenant))
  pub tenant_updated :
      (payload : TenantUpdate) → Q (answer tenant_body (update_tenant db tenant payload.name))
  pub profile_created :
      (w : ℕ) (payload : BusinessProfileCreate)
      → Q (
          answer profile_body (
            create_record profile_table db tenant w
              (profile_values payload)
              (caller payload.actor_id draws)
              draws.row_id))
  pub profile_got : (w : ℕ) → Q (answer_read profile_body db (get_record profile_table db tenant w))
  pub profile_updated :
      (w : ℕ) (payload : BusinessProfileUpdate)
      → Q (
          answer profile_body (
            update_record profile_table db tenant w
              (profile_changes payload)
              (caller payload.actor_id draws)))
  pub goal_created :
      (w : ℕ) (payload : PrimaryGrowthGoalCreate)
      → Q (
          answer goal_body (
            create_record goal_table db tenant w
              (goal_values payload)
              (caller payload.actor_id draws)
              draws.row_id))
  pub goal_got : (w : ℕ) → Q (answer_read goal_body db (get_record goal_table db tenant w))
  pub goal_updated :
      (w : ℕ) (payload : PrimaryGrowthGoalUpdate)
      → Q (
          answer goal_body (
            update_record goal_table db tenant w
              (goal_changes payload)
              (caller payload.actor_id draws)))
  pub policy_created :
      (w : ℕ) (payload : AutonomyPolicyCreate)
      → Q (
          answer policy_body (
            create_record policy_table db tenant w
              (policy_values payload)
              (caller payload.actor_id draws)
              draws.row_id))
  pub policy_got : (w : ℕ) → Q (answer_read policy_body db (get_record policy_table db tenant w))
  pub policy_updated :
      (w : ℕ) (payload : AutonomyPolicyUpdate)
      → Q (
          answer policy_body (
            update_record policy_table db tenant w
              (policy_changes payload)
              (caller payload.actor_id draws)))
  pub competitor_created :
      (w : ℕ) (payload : WorkspaceCompetitorCreate)
      → Q (
          answer competitor_body (
            create_record competitor_table db tenant w
              (competitor_values payload)
              (caller payload.actor_id draws)
              draws.row_id))
  pub competitors_listed :
      (w : ℕ) (range : Range)
      → Q (
          answer_read
            (λ found. competitors_body (page_of range found))
            db
            (list_competitors orders.competitors db tenant w range.limit range.offset))
  pub competitor_got : (w i : ℕ) → Q (answer_read competitor_body db (get_competitor db tenant w i))
  pub competitor_updated :
      (w i : ℕ) (payload : WorkspaceCompetitorUpdate)
      → Q (
          answer competitor_body (
            update_competitor db tenant w i
              (competitor_changes payload)
              (caller payload.actor_id draws)))
  pub workspace_created :
      (payload : WorkspaceCreate)
      → Q (answer workspace_body (create_workspace db tenant payload.name draws.row_id))
  pub workspaces_listed :
      (range : Range)
      → Q (
          answer_read
            (λ found. workspaces_body (page_of range found))
            db
            (list_owned workspace_table orders.workspaces db tenant range.limit range.offset))
  pub workspace_got :
      (i : ℕ) → Q (answer_read workspace_body db (get_owned workspace_table db tenant i))
  pub workspace_updated :
      (i : ℕ) (payload : WorkspaceUpdate)
      → Q (
          answer workspace_body
            (update_owned workspace_table db tenant i (WorkspaceField.name payload.name ∷ [])))
  pub membership_created :
      (payload : MembershipCreate)
      → Q (
          answer membership_body (
            create_membership db tenant payload.workspace_id payload.user_id payload.role
              draws.row_id))
  pub memberships_listed :
      (range : Range)
      → Q (
          answer_read
            (λ found. memberships_body (page_of range found))
            db
            (list_owned membership_table orders.memberships db tenant range.limit range.offset))
  pub membership_got :
      (i : ℕ) → Q (answer_read membership_body db (get_owned membership_table db tenant i))
  pub membership_updated :
      (i : ℕ) (payload : MembershipUpdate)
      → Q (
          answer membership_body
            (update_owned membership_table db tenant i (role payload.role ∷ [])))
  pub site_created :
      (payload : SiteCreate)
      → Q (
          answer site_body
            (create_site db tenant payload.workspace_id payload.name payload.url draws.row_id))
  pub sites_listed :
      (range : Range)
      → Q (
          answer_read
            (λ found. sites_body (page_of range found))
            db
            (list_owned site_table orders.sites db tenant range.limit range.offset))
  pub site_got : (i : ℕ) → Q (answer_read site_body db (get_owned site_table db tenant i))
  pub site_updated :
      (i : ℕ) (payload : SiteUpdate)
      → Q (answer site_body (update_owned site_table db tenant i (site_changes payload)))
  pub connector_created :
      (payload : ConnectorStatusCreate)
      → Q (
          answer connector_body (
            create_connector db tenant payload.workspace_id payload.site_id payload.kind
              draws.row_id))
  pub connectors_listed :
      (range : Range)
      → Q (
          answer_read
            (λ found. connectors_body (page_of range found))
            db
            (list_owned connector_table orders.connectors db tenant range.limit range.offset))
  pub connector_got :
      (i : ℕ) → Q (answer_read connector_body db (get_owned connector_table db tenant i))
  pub connector_updated :
      (i : ℕ) (payload : ConnectorStatusUpdate)
      → Q (
          answer connector_body
            (update_owned connector_table db tenant i (status payload.status ∷ [])))

handle_route-Covers :
    (orders : Orders) (db : FoundationDb) (tenant : ℕ) (draws : Draws) (Q : Answer → Type 0)
    → Covers orders db tenant draws Q
    → (route : Route) → Q (handle_route orders db tenant draws route)
unfolding handle_route handle_workspaces handle_business_profile handle_primary_growth_goal
    handle_autonomy_policy handle_competitors handle_memberships handle_sites
    handle_connector_statuses
handle_route-Covers orders db tenant draws Q c (Route.onboarding_status w) = c.onboarding w
handle_route-Covers orders db tenant draws Q c Route.get_tenant = c.tenant_got
handle_route-Covers orders db tenant draws Q c (Route.update_tenant payload) =
    c.tenant_updated payload
handle_route-Covers orders db tenant draws Q c
      (Route.business_profile w (RecordRoute.create payload)) =
    c.profile_created w payload
handle_route-Covers orders db tenant draws Q c (Route.business_profile w RecordRoute.get) =
    c.profile_got w
handle_route-Covers orders db tenant draws Q c
      (Route.business_profile w (RecordRoute.update payload)) =
    c.profile_updated w payload
handle_route-Covers orders db tenant draws Q c
      (Route.primary_growth_goal w (RecordRoute.create payload)) =
    c.goal_created w payload
handle_route-Covers orders db tenant draws Q c (Route.primary_growth_goal w RecordRoute.get) =
    c.goal_got w
handle_route-Covers orders db tenant draws Q c
      (Route.primary_growth_goal w (RecordRoute.update payload)) =
    c.goal_updated w payload
handle_route-Covers orders db tenant draws Q c
      (Route.autonomy_policy w (RecordRoute.create payload)) =
    c.policy_created w payload
handle_route-Covers orders db tenant draws Q c (Route.autonomy_policy w RecordRoute.get) =
    c.policy_got w
handle_route-Covers orders db tenant draws Q c
      (Route.autonomy_policy w (RecordRoute.update payload)) =
    c.policy_updated w payload
handle_route-Covers orders db tenant draws Q c
      (Route.competitors w (CompetitorRoute.create payload)) =
    c.competitor_created w payload
handle_route-Covers orders db tenant draws Q c (Route.competitors w (CompetitorRoute.list range)) =
    c.competitors_listed w range
handle_route-Covers orders db tenant draws Q c (Route.competitors w (CompetitorRoute.get i)) =
    c.competitor_got w i
handle_route-Covers orders db tenant draws Q c
      (Route.competitors w (CompetitorRoute.update i payload)) =
    c.competitor_updated w i payload
handle_route-Covers orders db tenant draws Q c (Route.workspaces (WorkspaceRoute.create payload)) =
    c.workspace_created payload
handle_route-Covers orders db tenant draws Q c (Route.workspaces (WorkspaceRoute.list range)) =
    c.workspaces_listed range
handle_route-Covers orders db tenant draws Q c (Route.workspaces (WorkspaceRoute.get i)) =
    c.workspace_got i
handle_route-Covers orders db tenant draws Q c
      (Route.workspaces (WorkspaceRoute.update i payload)) =
    c.workspace_updated i payload
handle_route-Covers orders db tenant draws Q c
      (Route.memberships (MembershipRoute.create payload)) =
    c.membership_created payload
handle_route-Covers orders db tenant draws Q c (Route.memberships (MembershipRoute.list range)) =
    c.memberships_listed range
handle_route-Covers orders db tenant draws Q c (Route.memberships (MembershipRoute.get i)) =
    c.membership_got i
handle_route-Covers orders db tenant draws Q c
      (Route.memberships (MembershipRoute.update i payload)) =
    c.membership_updated i payload
handle_route-Covers orders db tenant draws Q c (Route.sites (SiteRoute.create payload)) =
    c.site_created payload
handle_route-Covers orders db tenant draws Q c (Route.sites (SiteRoute.list range)) =
    c.sites_listed range
handle_route-Covers orders db tenant draws Q c (Route.sites (SiteRoute.get i)) = c.site_got i
handle_route-Covers orders db tenant draws Q c (Route.sites (SiteRoute.update i payload)) =
    c.site_updated i payload
handle_route-Covers orders db tenant draws Q c
      (Route.connector_statuses (ConnectorRoute.create payload)) =
    c.connector_created payload
handle_route-Covers orders db tenant draws Q c
      (Route.connector_statuses (ConnectorRoute.list range)) =
    c.connectors_listed range
handle_route-Covers orders db tenant draws Q c (Route.connector_statuses (ConnectorRoute.get i)) =
    c.connector_got i
handle_route-Covers orders db tenant draws Q c
      (Route.connector_statuses (ConnectorRoute.update i payload)) =
    c.connector_updated i payload

-- Every answer is a refusal, the answer to a new tenant, or that of a route for the sender.
pub handle-Covers :
    (orders : Orders) (request : Request) (db : FoundationDb) (Q : Answer → Type 0)
    → ((e : ApiError) → Q (err e, db))
    → ((payload : TenantCreate) (i : ℕ)
        → sender request ≡ i
        → Q (answer tenant_body (create_tenant db payload.name i)))
    → ((tenant : ℕ) (draws : Draws) → sender request ≡ tenant → Covers orders db tenant draws Q)
    → Q (handle orders request db)
unfolding handle tenant_context
handle-Covers orders (Request.create_tenant payload i) db Q refused created covers =
    elim (Bool-cases (has_length 1 200 payload.name)) [
      | inl fits ↦ rw fits (created payload i refl)
      | inr long ↦ rw long (refused _)
    ]
handle-Covers orders (Request.for_tenant tenant_id x_tenant_id draws route) db Q refused created
      covers =
    elim (Bool-cases (x_tenant_id == tenant_id)) [
      | inr strange ↦ rw (handle, tenant_context, strange) (refused _)
      | inl same ↦ elim (Bool-cases (is_valid route)) [
        | inr invalid ↦ rw (handle, tenant_context, same, invalid) (refused _)
        | inl valid ↦
            rw (handle, tenant_context, same, valid)
              (handle_route-Covers orders db tenant_id draws Q
                (covers tenant_id draws (nat_eq_sound same)) route)
      ]
    ]
