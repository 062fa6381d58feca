-- ===== src/Api/Isolation.antt =====
-- Tenants apart in growth_os/api/foundation.py: whom a request comes from, and what its answer shows.
pub mod Cases
pub mod Writes
pub mod Reads
use growth_os.Prelude.{ℕ, ◌≡◌, List, ◌∷◌, [], Within}
use growth_os.Api.Routes.{
  Body, tenant_body, onboarding_body, workspace_body, workspaces_body, profile_body, goal_body,
  policy_body, competitor_body, competitors_body, membership_body, memberships_body, site_body,
  sites_body, connector_body, connectors_body, Request, Orders,
}

-- The tenant of the header, or the one that the request makes.
abbrev pub sender : Request → ℕ
sender (Request.create_tenant payload tenant_id) = tenant_id
sender (Request.for_tenant tenant_id x_tenant_id draws route) = x_tenant_id

-- All that the body shows is of the tenant.
abbrev pub IsOwn : ℕ → Body → Type 0
IsOwn tenant (tenant_body t) = t.id ≡ tenant
IsOwn tenant (onboarding_body s) = s.tenant_id ≡ tenant
IsOwn tenant (workspace_body w) = w.tenant_id ≡ tenant
IsOwn tenant (workspaces_body page) = (w : _) → Within w page.items → w.tenant_id ≡ tenant
IsOwn tenant (profile_body p) = p.tenant_id ≡ tenant
IsOwn tenant (goal_body g) = g.tenant_id ≡ tenant
IsOwn tenant (policy_body p) = p.tenant_id ≡ tenant
IsOwn tenant (competitor_body c) = c.tenant_id ≡ tenant
IsOwn tenant (competitors_body page) = (c : _) → Within c page.items → c.tenant_id ≡ tenant
IsOwn tenant (membership_body m) = m.tenant_id ≡ tenant
IsOwn tenant (memberships_body page) = (m : _) → Within m page.items → m.tenant_id ≡ tenant
IsOwn tenant (site_body s) = s.tenant_id ≡ tenant
IsOwn tenant (sites_body page) = (s : _) → Within s page.items → s.tenant_id ≡ tenant
IsOwn tenant (connector_body c) = c.tenant_id ≡ tenant
IsOwn tenant (connectors_body page) = (c : _) → Within c page.items → c.tenant_id ≡ tenant

-- Sorting makes up no row.
abbrev pub Sorts : {A : Type 0} → (List A → List A) → Type 0
Sorts {A} order = (x : A) (xs : List A) → Within x (order xs) → Within x xs

pub record IsSorting (orders : Orders) : Type 0 where
  pub workspaces : Sorts orders.workspaces
  pub competitors : Sorts orders.competitors
  pub memberships : Sorts orders.memberships
  pub sites : Sorts orders.sites
  pub connectors : Sorts orders.connectors
