-- ===== src/Foundation/Isolation/Calls.antt =====
-- The methods of `FoundationService` and the rows of the tenants that do not call them.
use Prim.Native.String.{String}
use growth_os.Prelude.{
  ℕ, ◌≡◌, refl, ap, ◌∙◌, inl, inr, false, Option, some, List, [], ◌∷◌, map, ◌==◌, if◌then◌else◌,
  Within, Bool-cases, Result-cases,
}
use growth_os.Text.{Text}
use growth_os.Execution.Store.{keep, any}
use growth_os.Execution.Store.Rows.{nat_eq_sound}
use growth_os.Execution.Service.{and_then}
use growth_os.Execution.Service.Reads.{and_then-some}
use growth_os.Foundation.Tables.{MembershipRole, Tenant, FoundationDb}
use growth_os.Foundation.Changes.{CompetitorField, set_all}
use growth_os.Foundation.Service.{
  Table, AuditedTable, insert_row, update_row, persisted, get_tenant, get_owned, update_owned,
  add_audit, workspace_table, membership_table, site_table, connector_table, create_tenant,
  update_tenant, create_workspace, create_membership, create_site, create_connector,
}
use growth_os.Foundation.Records.{
  Caller, field_audit, add_record, change_record, new_record, create_record, get_record,
  update_record, competitor_table, get_competitor, update_competitor,
}
use growth_os.Foundation.Isolation.{rows_of, IsKeyedDb, Leaves, IsTable}
use growth_os.Foundation.Isolation.Rows.{
  Leaves_trans, persisted-Leaves, add_audit-Leaves, set_all_owner, insert_row-Leaves,
  update_row-Leaves,
}
use growth_os.Foundation.Isolation.Tables.{
  workspace-IsTable, membership-IsTable, site-IsTable, connector-IsTable, competitor-IsTable,
}
use growth_os.Foundation.Isolation.Owned.{
  get_owned_sound, get_record_sound, get_competitor_sound, get_tenant_sound,
}

module _ (other : ℕ) (db : FoundationDb) (k : IsKeyedDb db) (tenant : ℕ)
    (apart : (tenant == other) ≡ false) where
  not_other : (owner : ℕ) → owner ≡ tenant → (owner == other) ≡ false
  not_other owner e = ap (λ x. x == other) e ∙ apart

  pub update_owned-Leaves :
      {A C : Type 0} (t : Table A C) (l : IsTable t) (i : ℕ) (changes : List C)
      → Leaves other db (update_owned t db tenant i changes).1
  unfolding update_owned keep
  update_owned-Leaves t l i changes = elim (Result-cases (get_owned t db tenant i)) [
    | inr (e, failing) ↦ rw (update_owned, failing) (k, refl)
    | inl (row, read) ↦
        let found = get_owned_sound t db tenant i row read in
        rw (update_owned, read)
          (persisted-Leaves other db (set_all t.set changes row) _ k (λ db' h.
            update_row-Leaves t l other row changes db db' k found.0
              (not_other (t.tenant_of row) found.1) h))
  ]

  -- A commit of an inserted row of the tenant.
  insertion :
      {A C B : Type 0} (t : Table A C) (l : IsTable t) (row : A) (result : B)
      → t.tenant_of row ≡ tenant
      → Leaves other db (persisted db result (insert_row t row db)).1
  insertion t l row result own =
      persisted-Leaves other db result (insert_row t row db) k
        (λ db' h. insert_row-Leaves t l other row db db' k (not_other (t.tenant_of row) own) h)

  pub create_workspace-Leaves :
      (name : Text) (i : ℕ) → Leaves other db (create_workspace db tenant name i).1
  unfolding create_workspace keep
  create_workspace-Leaves name i = elim (Result-cases (get_tenant db tenant)) [
    | inr (e, failing) ↦ rw (create_workspace, failing) (k, refl)
    | inl (found, read) ↦
        rw (create_workspace, read) (insertion workspace_table workspace-IsTable _ _ refl)
  ]

  pub create_membership-Leaves :
      (workspace_id user_id : ℕ) (role : MembershipRole) (i : ℕ)
      → Leaves other db (create_membership db tenant workspace_id user_id role i).1
  unfolding create_membership keep
  create_membership-Leaves workspace_id user_id role i =
      elim (Result-cases (get_owned workspace_table db tenant workspace_id)) [
        | inr (e, failing) ↦ rw (create_membership, failing) (k, refl)
        | inl (found, read) ↦
            rw (create_membership, read) (insertion membership_table membership-IsTable _ _ refl)
      ]

  pub create_site-Leaves :
      (workspace_id : ℕ) (name url : Text) (i : ℕ)
      → Leaves other db (create_site db tenant workspace_id name url i).1
  unfolding create_site keep
  create_site-Leaves workspace_id name url i =
      elim (Result-cases (get_owned workspace_table db tenant workspace_id)) [
        | inr (e, failing) ↦ rw (create_site, failing) (k, refl)
        | inl (found, read) ↦ rw (create_site, read) (insertion site_table site-IsTable _ _ refl)
      ]

  pub create_connector-Leaves :
      (workspace_id site_id : ℕ) (kind : Text) (i : ℕ)
      → Leaves other db (create_connector db tenant workspace_id site_id kind i).1
  unfolding create_connector keep
  create_connector-Leaves workspace_id site_id kind i =
      elim (Result-cases (get_owned site_table db tenant site_id)) [
        | inr (e, failing) ↦ rw (create_connector, failing) (k, refl)
        | inl (site, read) ↦ elim (Bool-cases (site.workspace_id == workspace_id)) [
          | inr elsewhere ↦ rw (create_connector, read, elsewhere) (k, refl)
          | inl here ↦
              rw (create_connector, read, here)
                (insertion connector_table connector-IsTable _ _ refl)
        ]
      ]

  module _ {A C : Type 0} (t : AuditedTable A C) (l : IsTable t.table) where
    -- With its audit event a change of the tenant's rows commits.
    audited :
        (row : A) (name : String) (fields : List C) (caller : Caller)
        (written : Option FoundationDb)
        → t.table.tenant_of row ≡ tenant
        → ((middle : FoundationDb) → written ≡ some middle → Leaves other db middle)
        → (db' : FoundationDb)
        → and_then written (add_audit (field_audit t row name fields caller)) ≡ some db'
        → Leaves other db db'
    unfolding field_audit
    audited row name fields caller written own change db' h =
        let first = and_then-some written _ db' h in
        let changed = change first.0 first.1.0 in
        Leaves_trans other db first.0 db' changed (
          add_audit-Leaves other (field_audit t row name fields caller) first.0 db' changed.0
            (not_other (t.table.tenant_of row) own) first.1.1)

    pub create_record-Leaves :
        (blank_tenant : (i a w : ℕ) → t.table.tenant_of (t.blank i a w) ≡ a) (workspace_id : ℕ)
        (values : List C) (caller : Caller) (i : ℕ)
        → Leaves other db (create_record t db tenant workspace_id values caller i).1
    unfolding create_record add_record new_record keep
    create_record-Leaves blank_tenant workspace_id values caller i =
        let blank = t.blank i tenant workspace_id in
        let row = new_record t i tenant workspace_id values in
        let own = (set_all_owner t.table l values blank).1 ∙ blank_tenant i tenant workspace_id in
        elim (Result-cases (get_owned workspace_table db tenant workspace_id)) [
          | inr (e, failing) ↦ rw (create_record, failing) (k, refl)
          | inl (found, read) ↦
              rw (create_record, read)
                (persisted-Leaves other db row (add_record t row values caller db) k (
                  audited row t.created values caller (insert_row t.table row db) own (λ middle h.
                    insert_row-Leaves t.table l other row db middle k
                      (not_other (t.table.tenant_of row) own) h)))
        ]

    -- The commit of a changed row that was read as the tenant's.
    changed-Leaves :
        (row : A) (changes : List C) (caller : Caller)
        → Within row (t.table.rows db)
        → t.table.tenant_of row ≡ tenant
        → Leaves other db
            (persisted db
              (set_all t.table.set changes row)
              (change_record t (set_all t.table.set changes row) changes caller db)).1
    unfolding change_record
    changed-Leaves row changes caller here own =
        let changed = set_all t.table.set changes row in
        persisted-Leaves other db changed (change_record t changed changes caller db) k (
          audited changed t.updated changes caller (update_row t.table changed db)
            ((set_all_owner t.table l changes row).1 ∙ own)
            (λ middle h.
              update_row-Leaves t.table l other row changes db middle k here
                (not_other (t.table.tenant_of row) own) h))

    pub update_record-Leaves :
        (workspace_id : ℕ) (changes : List C) (caller : Caller)
        → Leaves other db (update_record t db tenant workspace_id changes caller).1
    unfolding update_record keep
    update_record-Leaves workspace_id changes caller =
        elim (Result-cases (get_record t db tenant workspace_id)) [
          | inr (e, failing) ↦ rw (update_record, failing) (k, refl)
          | inl (row, read) ↦
              let found = get_record_sound t db tenant workspace_id row read in
              rw (update_record, read) (changed-Leaves row changes caller found.0 found.1)
        ]

  pub update_competitor-Leaves :
      (workspace_id i : ℕ) (changes : List CompetitorField) (caller : Caller)
      → Leaves other db (update_competitor db tenant workspace_id i changes caller).1
  unfolding update_competitor keep
  update_competitor-Leaves workspace_id i changes caller =
      elim (Result-cases (get_competitor db tenant workspace_id i)) [
        | inr (e, failing) ↦ rw (update_competitor, failing) (k, refl)
        | inl (row, read) ↦
            let found = get_competitor_sound db tenant workspace_id i row read in
            rw (update_competitor, read)
              (changed-Leaves competitor_table competitor-IsTable row changes caller found.0
                found.1)
      ]

  -- Renaming a tenant.
  renamed :
      (row : Tenant) (rows : List Tenant)
      → row.id ≡ tenant
      → keep (λ t. t.id == other) (map (λ t. if t.id == row.id then row else t) rows)
        ≡ keep (λ t. t.id == other) rows
  unfolding keep
  renamed row [] own = refl
  renamed row (t ∷ rows) own = elim (Bool-cases (t.id == row.id)) [
    | inl hit ↦
        rw
          (hit, not_other row.id own, not_other t.id (nat_eq_sound hit ∙ own), renamed row rows own)
    | inr miss ↦ elim (Bool-cases (t.id == other)) [
      | inl is_other ↦ rw (miss, is_other, renamed row rows own)
      | inr is_not ↦ rw (miss, is_not, renamed row rows own)
    ]
  ]

  abbrev with_tenants : List Tenant → FoundationDb → FoundationDb
  with_tenants rows d = record d { tenants = rows }

  tenants-Leaves :
      (rows : List Tenant)
      → keep (λ t. t.id == other) rows ≡ keep (λ t. t.id == other) db.tenants
      → Leaves other db (with_tenants rows db)
  unfolding keep
  tenants-Leaves rows e = (
    record {
      workspaces = k.workspaces;
      memberships = k.memberships;
      sites = k.sites;
      connectors = k.connectors;
      business_profiles = k.business_profiles;
      primary_growth_goals = k.primary_growth_goals;
      autonomy_policies = k.autonomy_policies;
      competitors = k.competitors;
    },
    ap (λ ts. with_tenants ts (rows_of other db)) e,
  )

  pub update_tenant-Leaves : (name : Text) → Leaves other db (update_tenant db tenant name).1
  unfolding update_tenant persisted keep
  update_tenant-Leaves name = elim (Result-cases (get_tenant db tenant)) [
    | inr (e, failing) ↦ rw (update_tenant, failing) (k, refl)
    | inl (found, read) ↦
        let changed : Tenant = record found { name = name } in
        rw (update_tenant, read)
          (tenants-Leaves _
            (renamed changed db.tenants ((get_tenant_sound db tenant found read).1)))
  ]

  pub create_tenant-Leaves : (name : Text) → Leaves other db (create_tenant db name tenant).1
  unfolding create_tenant persisted keep
  create_tenant-Leaves name = elim (Bool-cases (any (λ t. t.id == tenant) db.tenants)) [
    | inl taken ↦ rw (create_tenant, taken) (k, refl)
    | inr free ↦
        let row : Tenant = record { id = tenant; name = name } in
        rw (create_tenant, free) (tenants-Leaves (row ∷ db.tenants) (rw apart))
  ]
