-- ===== src/Api/Routes.antt =====
-- The requests that the router of growth_os/api/foundation.py takes and the bodies that it answers
-- with. Where `uuid4` draws an identifier, the request carries what it draws.
use growth_os.Prelude.{ℕ, List}
use growth_os.Execution.Store.{Workspace}
use growth_os.Execution.Service.{ServiceError}
use growth_os.Foundation.{OnboardingStatus}
use growth_os.Foundation.Tables.{
  Tenant, BusinessProfile, PrimaryGrowthGoal, AutonomyPolicy, Competitor, Membership, Site,
  Connector,
}
use growth_os.Api.Schemas.{
  TenantCreate, TenantUpdate, WorkspaceCreate, WorkspaceUpdate, BusinessProfileCreate,
  BusinessProfileUpdate, PrimaryGrowthGoalCreate, PrimaryGrowthGoalUpdate, AutonomyPolicyCreate,
  AutonomyPolicyUpdate, WorkspaceCompetitorCreate, WorkspaceCompetitorUpdate, MembershipCreate,
  MembershipUpdate, SiteCreate, SiteUpdate, ConnectorStatusCreate, ConnectorStatusUpdate,
}

pub record Pagination : Type 0 where
  pub limit : ℕ
  pub offset : ℕ
  pub total : ℕ

pub record Page (A : Type 0) : Type 0 where
  pub items : List A
  pub pagination : Pagination

pub data Body : Type 0 where
  tenant_body : Tenant → Body
  onboarding_body : OnboardingStatus → Body
  workspace_body : Workspace → Body
  workspaces_body : Page Workspace → Body
  profile_body : BusinessProfile → Body
  goal_body : PrimaryGrowthGoal → Body
  policy_body : AutonomyPolicy → Body
  competitor_body : Competitor → Body
  competitors_body : Page Competitor → Body
  membership_body : Membership → Body
  memberships_body : Page Membership → Body
  site_body : Site → Body
  sites_body : Page Site → Body
  connector_body : Connector → Body
  connectors_body : Page Connector → Body

-- A `RequestValidationError` is answered with 422.
pub data ApiError : Type 0 where
  application : ServiceError → ApiError
  validation : ApiError

-- `Limit` and `Offset`
pub record Range : Type 0 where
  pub limit : ℕ
  pub offset : ℕ

-- The identifiers of the row and the audit event that a request makes.
pub record Draws : Type 0 where
  pub row_id : ℕ
  pub audit_id : ℕ

pub data WorkspaceRoute : Type 0 where
  create : WorkspaceCreate → WorkspaceRoute
  list : Range → WorkspaceRoute
  get : ℕ → WorkspaceRoute
  update : ℕ → WorkspaceUpdate → WorkspaceRoute

-- The routes of a workspace's only row of a kind.
pub data RecordRoute (Create Update : Type 0) : Type 0 where
  create : Create → RecordRoute Create Update
  get : RecordRoute Create Update
  update : Update → RecordRoute Create Update

pub data CompetitorRoute : Type 0 where
  create : WorkspaceCompetitorCreate → CompetitorRoute
  list : Range → CompetitorRoute
  get : ℕ → CompetitorRoute
  update : ℕ → WorkspaceCompetitorUpdate → CompetitorRoute

pub data MembershipRoute : Type 0 where
  create : MembershipCreate → MembershipRoute
  list : Range → MembershipRoute
  get : ℕ → MembershipRoute
  update : ℕ → MembershipUpdate → MembershipRoute

pub data SiteRoute : Type 0 where
  create : SiteCreate → SiteRoute
  list : Range → SiteRoute
  get : ℕ → SiteRoute
  update : ℕ → SiteUpdate → SiteRoute

pub data ConnectorRoute : Type 0 where
  create : ConnectorStatusCreate → ConnectorRoute
  list : Range → ConnectorRoute
  get : ℕ → ConnectorRoute
  update : ℕ → ConnectorStatusUpdate → ConnectorRoute

-- The routes below `/tenants/{tenant_id}`; a number is the workspace of the path.
pub data Route : Type 0 where
  onboarding_status : ℕ → Route
  get_tenant : Route
  update_tenant : TenantUpdate → Route
  workspaces : WorkspaceRoute → Route
  business_profile : ℕ → RecordRoute BusinessProfileCreate BusinessProfileUpdate → Route
  primary_growth_goal : ℕ → RecordRoute PrimaryGrowthGoalCreate PrimaryGrowthGoalUpdate → Route
  autonomy_policy : ℕ → RecordRoute AutonomyPolicyCreate AutonomyPolicyUpdate → Route
  competitors : ℕ → CompetitorRoute → Route
  memberships : MembershipRoute → Route
  sites : SiteRoute → Route
  connector_statuses : ConnectorRoute → Route

-- `POST /tenants`, or a route below a tenant with the header `X-Tenant-ID`.
pub data Request : Type 0 where
  create_tenant : TenantCreate → ℕ → Request
  for_tenant : ℕ → ℕ → Draws → Route → Request

-- The sorting of the database in each listing.
pub record Orders : Type 0 where
  pub workspaces : List Workspace → List Workspace
  pub competitors : List Competitor → List Competitor
  pub memberships : List Membership → List Membership
  pub sites : List Site → List Site
  pub connectors : List Connector → List Connector
