-- ===== src/Foundation/Isolation.antt =====
-- The rows of one tenant in the database of growth_os/db/models.py, and what it is for a call of
-- growth_os/services.py to leave them.
pub mod Tables
pub mod Rows
pub mod Owned
pub mod Calls
pub mod Replies
use growth_os.Prelude.{ℕ, ◌≡◌, List, ◌==◌, Within}
use growth_os.Execution.Store.{keep}
use growth_os.Foundation.Tables.{FoundationDb}
use growth_os.Foundation.Service.{
  Table, workspace_table, membership_table, site_table, connector_table,
}
use growth_os.Foundation.Records.{profile_table, goal_table, policy_table, competitor_table}

-- The tenant's row and the rows of its tables.
abbrev pub rows_of : ℕ → FoundationDb → FoundationDb
rows_of tenant db = record {
  tenants = keep (λ t. t.id == tenant) db.tenants;
  workspaces = keep (λ r. r.tenant_id == tenant) db.workspaces;
  memberships = keep (λ r. r.tenant_id == tenant) db.memberships;
  sites = keep (λ r. r.tenant_id == tenant) db.sites;
  connectors = keep (λ r. r.tenant_id == tenant) db.connectors;
  business_profiles = keep (λ r. r.tenant_id == tenant) db.business_profiles;
  primary_growth_goals = keep (λ r. r.tenant_id == tenant) db.primary_growth_goals;
  autonomy_policies = keep (λ r. r.tenant_id == tenant) db.autonomy_policies;
  competitors = keep (λ r. r.tenant_id == tenant) db.competitors;
  audits = keep (λ r. r.tenant_id == tenant) db.audits;
}

-- The primary key: an identifier has one row.
abbrev pub IsKeyed : {A C : Type 0} → Table A C → List A → Type 0
IsKeyed {A} t rows = (r s : A) → Within r rows → Within s rows → t.row_id r ≡ t.row_id s → r ≡ s

pub record IsKeyedDb (db : FoundationDb) : Type 0 where
  pub workspaces : IsKeyed workspace_table db.workspaces
  pub memberships : IsKeyed membership_table db.memberships
  pub sites : IsKeyed site_table db.sites
  pub connectors : IsKeyed connector_table db.connectors
  pub business_profiles : IsKeyed profile_table.table db.business_profiles
  pub primary_growth_goals : IsKeyed goal_table.table db.primary_growth_goals
  pub autonomy_policies : IsKeyed policy_table.table db.autonomy_policies
  pub competitors : IsKeyed competitor_table.table db.competitors

-- The second state has primary keys, and the rows of the tenant as they were.
abbrev pub Leaves : ℕ → FoundationDb → FoundationDb → Type 0
Leaves tenant db db' = IsKeyedDb db' × (rows_of tenant db' ≡ rows_of tenant db)

-- What makes a table of the database.
pub record IsTable {A C : Type 0} (t : Table A C) : Type 0 where
  pub set_id : (c : C) (r : A) → t.row_id (t.set c r) ≡ t.row_id r
  pub set_tenant : (c : C) (r : A) → t.tenant_of (t.set c r) ≡ t.tenant_of r
  pub keyed : (db : FoundationDb) → IsKeyedDb db → IsKeyed t (t.rows db)
  pub keyed_with :
      (rs : List A) (db : FoundationDb)
      → IsKeyedDb db
      → IsKeyed t rs
      → IsKeyedDb (t.with_rows rs db)
  pub own_with :
      (tenant : ℕ) (rs : List A) (db : FoundationDb)
      → keep (λ r. t.tenant_of r == tenant) rs ≡ keep (λ r. t.tenant_of r == tenant) (t.rows db)
      → rows_of tenant (t.with_rows rs db) ≡ rows_of tenant db
