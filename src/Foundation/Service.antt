-- ===== src/Foundation/Service.antt =====
-- growth_os/services.py: the methods of `FoundationService`, with the statements of
-- growth_os/repositories.py that they send. A method runs against one state of the database and
-- returns its result or error with the state that it leaves; a statement that a constraint refuses
-- is `none`, the `IntegrityError`, after which the rollback leaves the state as it was. The
-- identifiers that `uuid4` draws are arguments.
use Prim.Native.String.{String}
use growth_os.Prelude.{
  ℕ, Bool, not, ◌&&◌, Option, none, some, List, ◌∷◌, map, ◌==◌, if◌then◌else◌, Result, ok, err,
  or_raise, ◌>>=◌,
}
use growth_os.Text.{Text}
use growth_os.Execution.Store.{Workspace, AuditEvent, any, find}
use growth_os.Execution.Service.{ServiceError, not_found, conflict}
use growth_os.Execution.Listing.{page}
use growth_os.Foundation.Tables.{
  MembershipRole, not_configured, Tenant, Membership, Site, Connector, FoundationDb, has_tenant,
  admits_workspace, admits_membership, admits_site, admits_connector,
}
use growth_os.Foundation.Changes.{
  WorkspaceField, set_workspace, MembershipField, set_membership, SiteField, set_site,
  ConnectorField, set_connector, set_all,
}

abbrev pub Reply : Type 0 → Type 0
Reply A = Result ServiceError A × FoundationDb

-- A table of rows that have a tenant, with its constraints and the fields that an update can set.
pub record Table (A C : Type 0) : Type 0 where
  pub rows : FoundationDb → List A
  pub with_rows : List A → FoundationDb → FoundationDb
  pub row_id : A → ℕ
  pub tenant_of : A → ℕ
  pub admits : FoundationDb → A → Bool
  pub set : C → A → A

-- A table of rows that belong to a workspace and are audited.
pub record AuditedTable (A C : Type 0) : Type 0 where
  pub table : Table A C
  pub workspace_of : A → ℕ
  -- The object with its keys, before its values are set.
  pub blank : ℕ → ℕ → ℕ → A
  pub field_name : C → String
  pub resource_type : String
  pub created : String
  pub updated : String

-- The `INSERT` of a new object.
unfoldable pub insert_row : {A C : Type 0} → Table A C → A → FoundationDb → Option FoundationDb
insert_row t row db =
    if not (any (λ r. t.row_id r == t.row_id row) (t.rows db)) && t.admits db row
    then some (t.with_rows (row ∷ t.rows db) db)
    else none

-- The row that an `UPDATE` leaves.
abbrev pub replace : {A C : Type 0} → Table A C → A → A → A
replace t row r = if t.row_id r == t.row_id row then row else r

-- The `UPDATE` of a changed object.
unfoldable pub update_row : {A C : Type 0} → Table A C → A → FoundationDb → Option FoundationDb
update_row t row db =
    if t.admits db row then some (t.with_rows (map (replace t row) (t.rows db)) db) else none

unfoldable pub add_audit : AuditEvent → FoundationDb → Option FoundationDb
add_audit a db =
    if not (any (λ b. b.id == a.id) db.audits) && has_tenant db a.tenant_id
    then some (record db { audits = a ∷ db.audits })
    else none

-- `_persist` and the other four: the commit, or `ConflictError` after a rollback.
unfoldable pub persisted : {A : Type 0} → FoundationDb → A → Option FoundationDb → Reply A
persisted db row none = (err conflict, db)
persisted db row (some committed) = (ok row, committed)

-- `get_tenant`
unfoldable pub get_tenant : FoundationDb → ℕ → Result ServiceError Tenant
get_tenant db tenant = or_raise (find (λ t. t.id == tenant) db.tenants) not_found

-- `get_owned`
unfoldable pub get_owned : {A C : Type 0} → Table A C → FoundationDb → ℕ → ℕ → Result ServiceError A
get_owned t db tenant resource_id =
    or_raise (find (λ r. t.row_id r == resource_id && t.tenant_of r == tenant) (t.rows db))
      not_found

-- `list_owned`
unfoldable pub list_owned :
    {A C : Type 0}
    → Table A C
    → (List A → List A)
    → FoundationDb
    → ℕ
    → ℕ
    → ℕ
    → Result ServiceError (List A × ℕ)
unfolding get_tenant
list_owned t order db tenant limit offset = do
  found ← get_tenant db tenant
  ok (page (λ r. t.tenant_of r == tenant) order limit offset (t.rows db))

-- `update_owned`
unfoldable pub update_owned : {A C : Type 0} → Table A C → FoundationDb → ℕ → ℕ → List C → Reply A
update_owned t db tenant resource_id changes = elim (get_owned t db tenant resource_id) [
  | err e ↦ (err e, db)
  | ok row ↦
      let changed = set_all t.set changes row in persisted db changed (update_row t changed db)
]

abbrev pub workspace_table : Table Workspace WorkspaceField
workspace_table = record {
  rows = λ db. db.workspaces;
  with_rows = λ rows db. record db { workspaces = rows };
  row_id = λ w. w.id;
  tenant_of = λ w. w.tenant_id;
  admits = admits_workspace;
  set = set_workspace;
}

abbrev pub membership_table : Table Membership MembershipField
membership_table = record {
  rows = λ db. db.memberships;
  with_rows = λ rows db. record db { memberships = rows };
  row_id = λ m. m.id;
  tenant_of = λ m. m.tenant_id;
  admits = admits_membership;
  set = set_membership;
}

abbrev pub site_table : Table Site SiteField
site_table = record {
  rows = λ db. db.sites;
  with_rows = λ rows db. record db { sites = rows };
  row_id = λ s. s.id;
  tenant_of = λ s. s.tenant_id;
  admits = admits_site;
  set = set_site;
}

abbrev pub connector_table : Table Connector ConnectorField
connector_table = record {
  rows = λ db. db.connectors;
  with_rows = λ rows db. record db { connectors = rows };
  row_id = λ c. c.id;
  tenant_of = λ c. c.tenant_id;
  admits = admits_connector;
  set = set_connector;
}

unfoldable pub create_tenant : FoundationDb → Text → ℕ → Reply Tenant
create_tenant db name tenant_id =
    let tenant : Tenant = record { id = tenant_id; name = name } in
    persisted db tenant (
      if any (λ t. t.id == tenant_id) db.tenants
      then none
      else some (record db { tenants = tenant ∷ db.tenants }))

unfoldable pub update_tenant : FoundationDb → ℕ → Text → Reply Tenant
update_tenant db tenant name = elim (get_tenant db tenant) [
  | err e ↦ (err e, db)
  | ok found ↦
      let renamed : Tenant = record found { name = name } in
      persisted db renamed (
        some
          (record db { tenants = map (λ t. if t.id == renamed.id then renamed else t) db.tenants }))
]

unfoldable pub create_workspace : FoundationDb → ℕ → Text → ℕ → Reply Workspace
create_workspace db tenant name workspace_id = elim (get_tenant db tenant) [
  | err e ↦ (err e, db)
  | ok found ↦
      let workspace : Workspace = record { id = workspace_id; tenant_id = tenant; name = name } in
      persisted db workspace (insert_row workspace_table workspace db)
]

unfoldable pub create_membership : FoundationDb → ℕ → ℕ → ℕ → MembershipRole → ℕ → Reply Membership
create_membership db tenant workspace_id user_id role membership_id =
    elim (get_owned workspace_table db tenant workspace_id) [
      | err e ↦ (err e, db)
      | ok workspace ↦
          let membership : Membership = record {
            id = membership_id;
            tenant_id = tenant;
            workspace_id = workspace_id;
            user_id = user_id;
            role = role;
          } in
          persisted db membership (insert_row membership_table membership db)
    ]

unfoldable pub create_site : FoundationDb → ℕ → ℕ → Text → Text → ℕ → Reply Site
create_site db tenant workspace_id name url site_id =
    elim (get_owned workspace_table db tenant workspace_id) [
      | err e ↦ (err e, db)
      | ok workspace ↦
          let site : Site = record {
            id = site_id;
            tenant_id = tenant;
            workspace_id = workspace_id;
            name = some name;
            url = url;
          } in
          persisted db site (insert_row site_table site db)
    ]

unfoldable pub create_connector : FoundationDb → ℕ → ℕ → ℕ → Text → ℕ → Reply Connector
create_connector db tenant workspace_id site_id kind connector_id =
    elim (get_owned site_table db tenant site_id) [
      | err e ↦ (err e, db)
      | ok site ↦
          let connector : Connector = record {
            id = connector_id;
            tenant_id = tenant;
            workspace_id = workspace_id;
            site_id = site_id;
            kind = kind;
            status = not_configured;
          } in
          if not (site.workspace_id == workspace_id)
          then (err not_found, db)
          else persisted db connector (insert_row connector_table connector db)
    ]
