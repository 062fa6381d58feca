-- ===== src/Foundation/Records/View.antt =====
-- What a client of growth_os/services.py sees of a table with one row for a workspace: a partial
-- map from tenant and workspace to the row, whatever the order and the identifiers of the rows.
use growth_os.Prelude.{
  ℕ, ◌≡◌, Bool, true, false, not, ◌&&◌, Option, none, some, List, ◌==◌, if◌then◌else◌, Within,
  Result, ok, err,
}
use growth_os.Execution.Store.{any, AuditEvent}
use growth_os.Execution.Service.{ServiceError, not_found, conflict}
use growth_os.Foundation.Tables.{FoundationDb, has_workspace}
use growth_os.Foundation.Service.{AuditedTable}
use growth_os.Foundation.Records.{find_record}

abbrev pub View : Type 0 → Type 0
View A = ℕ → ℕ → Option A

abbrev pub view : {A C : Type 0} → AuditedTable A C → FoundationDb → View A
view t db = find_record t db

-- The map with an entry.
abbrev pub put : {A : Type 0} → View A → ℕ → ℕ → A → View A
put v tenant workspace_id row a b = if tenant == a && workspace_id == b then some row else v a b

abbrev pub store_complete :
    {A : Type 0} → Bool → View A → ℕ → ℕ → A → Result ServiceError A × View A
store_complete true v tenant workspace_id row = (ok row, put v tenant workspace_id row)
store_complete false v tenant workspace_id row = (err conflict, v)

abbrev pub create_absent :
    {A : Type 0} → Option A → Bool → View A → ℕ → ℕ → A → Result ServiceError A × View A
create_absent (some old) complete v tenant workspace_id row = (err conflict, v)
create_absent none complete v tenant workspace_id row =
    store_complete complete v tenant workspace_id row

-- A creation on the map: `known` says whether the tenant has the workspace, `complete` whether the
-- row has all that it must have.
abbrev pub create_in :
    {A : Type 0} → Bool → Bool → View A → ℕ → ℕ → A → Result ServiceError A × View A
create_in false complete v tenant workspace_id row = (err not_found, v)
create_in true complete v tenant workspace_id row =
    create_absent (v tenant workspace_id) complete v tenant workspace_id row

abbrev pub update_present :
    {A : Type 0} → Option A → (A → Bool) → (A → A) → View A → ℕ → ℕ → Result ServiceError A × View A
update_present none complete change v tenant workspace_id = (err not_found, v)
update_present (some row) complete change v tenant workspace_id =
    store_complete (complete (change row)) v tenant workspace_id (change row)

-- An update on the map.
abbrev pub update_in :
    {A : Type 0} → Bool → (A → Bool) → (A → A) → View A → ℕ → ℕ → Result ServiceError A × View A
update_in false complete change v tenant workspace_id = (err not_found, v)
update_in true complete change v tenant workspace_id =
    update_present (v tenant workspace_id) complete change v tenant workspace_id

-- The same answer, and states that look the same.
abbrev pub Refines :
    {A C : Type 0}
    → AuditedTable A C
    → Result ServiceError A × FoundationDb
    → Result ServiceError A × View A
    → Type 0
Refines t concrete abstract =
    (concrete.0 ≡ abstract.0) × ((a b : ℕ) → view t concrete.1 a b ≡ abstract.1 a b)

-- Another row than the given one, for the same workspace.
abbrev pub clashes : {A C : Type 0} → AuditedTable A C → A → A → Bool
clashes t r q =
    not (t.table.row_id q == t.table.row_id r)
    && (t.table.tenant_of q == t.table.tenant_of r && t.workspace_of q == t.workspace_of r)

-- What the table of a workspace's only row is.
pub record IsSingle {A C : Type 0} (t : AuditedTable A C) : Type 0 where
  pub complete : A → Bool
  pub admits_is :
      (db : FoundationDb) (r : A)
      → t.table.admits db r ≡ (
          has_workspace db (t.workspace_of r) (t.table.tenant_of r)
          && (complete r && not (any (clashes t r) (t.table.rows db))))
  pub rows_with : (rs : List A) (db : FoundationDb) → t.table.rows (t.table.with_rows rs db) ≡ rs
  pub rows_audits :
      (db : FoundationDb) (events : List AuditEvent)
      → t.table.rows (record db { audits = events }) ≡ t.table.rows db
  pub audits_with : (rs : List A) (db : FoundationDb) → (t.table.with_rows rs db).audits ≡ db.audits
  pub tenants_with :
      (rs : List A) (db : FoundationDb) → (t.table.with_rows rs db).tenants ≡ db.tenants
  pub set_id : (c : C) (r : A) → t.table.row_id (t.table.set c r) ≡ t.table.row_id r
  pub set_tenant : (c : C) (r : A) → t.table.tenant_of (t.table.set c r) ≡ t.table.tenant_of r
  pub set_workspace : (c : C) (r : A) → t.workspace_of (t.table.set c r) ≡ t.workspace_of r
  pub blank_id : (i tenant workspace_id : ℕ) → t.table.row_id (t.blank i tenant workspace_id) ≡ i
  pub blank_tenant :
      (i tenant workspace_id : ℕ) → t.table.tenant_of (t.blank i tenant workspace_id) ≡ tenant
  pub blank_workspace :
      (i tenant workspace_id : ℕ) → t.workspace_of (t.blank i tenant workspace_id) ≡ workspace_id

-- Identifiers are not shared, and a workspace has one row at most.
pub record IsSingular {A C : Type 0} (t : AuditedTable A C) (rows : List A) : Type 0 where
  pub one_row :
      (r s : A) → Within r rows → Within s rows → t.table.row_id r ≡ t.table.row_id s → r ≡ s
  pub one_each :
      (r s : A)
      → Within r rows
      → Within s rows
      → t.table.tenant_of r ≡ t.table.tenant_of s
      → t.workspace_of r ≡ t.workspace_of s
      → t.table.row_id r ≡ t.table.row_id s
