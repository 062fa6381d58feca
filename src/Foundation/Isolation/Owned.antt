-- ===== src/Foundation/Isolation/Owned.antt =====
-- Whose rows the queries of growth_os/repositories.py find.
use growth_os.Prelude.{ℕ, ◌≡◌, ◌&&◌, ◌==◌, Within, ok, bind_ok, or_raise_ok}
use growth_os.Execution.Store.Rows.{find_sound, and_left, and_right, nat_eq_sound}
use growth_os.Execution.Service.{not_found}
use growth_os.Foundation.Tables.{Tenant, Competitor, FoundationDb}
use growth_os.Foundation.Service.{Table, AuditedTable, get_tenant, get_owned, workspace_table}
use growth_os.Foundation.Records.{find_record, get_record, get_competitor}

-- What a read of a tenant's row returns is the tenant's.
pub get_owned_sound :
    {A C : Type 0} (t : Table A C) (db : FoundationDb) (tenant i : ℕ) (row : A)
    → get_owned t db tenant i ≡ ok row
    → Within row (t.rows db) × (t.tenant_of row ≡ tenant)
unfolding get_owned
get_owned_sound t db tenant i row h =
    let here =
      find_sound (λ r. t.row_id r == i && t.tenant_of r == tenant) row (t.rows db)
        (or_raise_ok _ not_found row h) in
    (here.0, nat_eq_sound (and_right (t.row_id row == i) _ here.1))

pub get_record_sound :
    {A C : Type 0} (t : AuditedTable A C) (db : FoundationDb) (tenant workspace_id : ℕ) (row : A)
    → get_record t db tenant workspace_id ≡ ok row
    → Within row (t.table.rows db) × (t.table.tenant_of row ≡ tenant)
unfolding get_record find_record
get_record_sound t db tenant workspace_id row h =
    let step = bind_ok (get_owned workspace_table db tenant workspace_id) _ row h in
    let here =
      find_sound (λ r. t.table.tenant_of r == tenant && t.workspace_of r == workspace_id) row
        (t.table.rows db) (or_raise_ok _ not_found row step.1.1) in
    (here.0, nat_eq_sound (and_left _ (t.workspace_of row == workspace_id) here.1))

pub get_competitor_sound :
    (db : FoundationDb) (tenant workspace_id i : ℕ) (row : Competitor)
    → get_competitor db tenant workspace_id i ≡ ok row
    → Within row db.competitors × (row.tenant_id ≡ tenant)
unfolding get_competitor
get_competitor_sound db tenant workspace_id i row h =
    let step = bind_ok (get_owned workspace_table db tenant workspace_id) _ row h in
    let here =
      find_sound (λ c. c.tenant_id == tenant && (c.workspace_id == workspace_id && c.id == i)) row
        db.competitors (or_raise_ok _ not_found row step.1.1) in
    (here.0, nat_eq_sound (and_left _ (row.workspace_id == workspace_id && row.id == i) here.1))

pub get_tenant_sound :
    (db : FoundationDb) (tenant : ℕ) (row : Tenant)
    → get_tenant db tenant ≡ ok row
    → Within row db.tenants × (row.id ≡ tenant)
unfolding get_tenant
get_tenant_sound db tenant row h =
    let here = find_sound (λ t. t.id == tenant) row db.tenants (or_raise_ok _ not_found row h) in
    (here.0, nat_eq_sound here.1)
