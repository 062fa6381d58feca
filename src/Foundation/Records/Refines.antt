-- ===== src/Foundation/Records/Refines.antt =====
-- The creation and the update of growth_os/services.py against the map from workspaces to rows.
use Prim.Native.String.{String}
use growth_os.Prelude.{
  ℕ, ◌≡◌, refl, ap, ◌∙◌, ◌⊎◌, inl, inr, Bool, true, false, not, ◌&&◌, Option, none, some, List, [],
  ◌∷◌, map, ◌==◌, Bool-cases, Option-cases, ok, err,
}
use growth_os.Execution.Store.{any, find, AuditEvent, Workspace}
use growth_os.Execution.Store.Rows.{find_sound}
use growth_os.Execution.Service.{not_found}
use growth_os.Foundation.Tables.{FoundationDb, has_workspace, has_tenant}
use growth_os.Foundation.Changes.{set_all}
use growth_os.Foundation.Service.{
  AuditedTable, insert_row, update_row, replace, add_audit, persisted, get_owned, workspace_table,
}
use growth_os.Foundation.Records.{
  Caller, field_audit, add_record, change_record, new_record, find_record,
}
use growth_os.Foundation.Records.Keys.{find-any, any-Within}
use growth_os.Foundation.Records.View.{View, view, put, store_complete, Refines, clashes, IsSingle}

-- The event's identifier is new and its tenant exists.
abbrev pub CanAudit : FoundationDb → ℕ → Caller → Type 0
CanAudit db tenant caller =
    (any (λ b. b.id == caller.audit_id) db.audits ≡ false) × (has_tenant db tenant ≡ true)

-- The workspace is read exactly where the tenant has it.
pub workspace_known :
    (db : FoundationDb) (tenant workspace_id : ℕ)
    → ((has_workspace db workspace_id tenant ≡ true)
        × ((w : Workspace) × (get_owned workspace_table db tenant workspace_id ≡ ok w)))
      ⊎ ((has_workspace db workspace_id tenant ≡ false)
          × (get_owned workspace_table db tenant workspace_id ≡ err not_found))
unfolding get_owned has_workspace
workspace_known db tenant workspace_id =
    let test : Workspace → Bool = λ w. w.id == workspace_id && w.tenant_id == tenant in
    elim (Option-cases (find test db.workspaces)) [
      | inl absent ↦ inr (find-any test db.workspaces absent, rw absent)
      | inr (w, found) ↦
          let here = find_sound test w db.workspaces found in
          inl (any-Within test w db.workspaces here.0 here.1, (w, rw found))
    ]

add_audit_fits :
    (e : AuditEvent) (db : FoundationDb)
    → any (λ b. b.id == e.id) db.audits ≡ false
    → has_tenant db e.tenant_id ≡ true
    → add_audit e db ≡ some (record db { audits = e ∷ db.audits })
unfolding add_audit
add_audit_fits e db new own = rw (new, own)

module _ {A C : Type 0} (t : AuditedTable A C) (l : IsSingle t) where
  -- Setting fields leaves the keys.
  pub set_all_keys :
      (fields : List C) (r : A)
      → (t.table.row_id (set_all t.table.set fields r) ≡ t.table.row_id r)
        × ((t.table.tenant_of (set_all t.table.set fields r) ≡ t.table.tenant_of r)
            × (t.workspace_of (set_all t.table.set fields r) ≡ t.workspace_of r))
  unfolding set_all
  set_all_keys [] r = (refl, (refl, refl))
  set_all_keys (c ∷ cs) r =
      let rest = set_all_keys cs (t.table.set c r) in
      (rest.0 ∙ l.set_id c r, (rest.1.0 ∙ l.set_tenant c r, rest.1.1 ∙ l.set_workspace c r))

  pub new_record_keys :
      (i tenant workspace_id : ℕ) (values : List C)
      → (t.table.row_id (new_record t i tenant workspace_id values) ≡ i)
        × ((t.table.tenant_of (new_record t i tenant workspace_id values) ≡ tenant)
            × (t.workspace_of (new_record t i tenant workspace_id values) ≡ workspace_id))
  unfolding new_record
  new_record_keys i tenant workspace_id values =
      let keys = set_all_keys values (t.blank i tenant workspace_id) in
      (
        keys.0 ∙ l.blank_id i tenant workspace_id,
        (
          keys.1.0 ∙ l.blank_tenant i tenant workspace_id,
          keys.1.1 ∙ l.blank_workspace i tenant workspace_id,
        ),
      )

  -- With its audit event a change of the rows commits.
  pub audited :
      (db : FoundationDb) (rs : List A) (row : A) (name : String) (fields : List C)
      (caller : Caller)
      → CanAudit db (t.table.tenant_of row) caller
      → (db' : FoundationDb) × ((add_audit
              (field_audit t row name fields caller)
              (t.table.with_rows rs db)
            ≡ some db')
          × (t.table.rows db' ≡ rs))
  unfolding field_audit has_tenant
  audited db rs row name fields caller can =
      let event = field_audit t row name fields caller in
      let changed = t.table.with_rows rs db in
      (
        record changed { audits = event ∷ changed.audits },
        (
          add_audit_fits event changed
              (ap (any (λ b. b.id == caller.audit_id)) (l.audits_with rs db) ∙ can.0)
              (ap (any (λ u. u.id == t.table.tenant_of row)) (l.tenants_with rs db) ∙ can.1),
          l.rows_audits changed (event ∷ changed.audits) ∙ l.rows_with rs db,
        ),
      )

  pub find_record_is :
      (db : FoundationDb) (rs : List A) (a b : ℕ)
      → t.table.rows db ≡ rs
      → find_record t db a b ≡ find (λ r. t.table.tenant_of r == a && t.workspace_of r == b) rs
  unfolding find_record
  find_record_is db rs a b e = ap (find (λ r. t.table.tenant_of r == a && t.workspace_of r == b)) e

  pub refused :
      (db : FoundationDb) (row : A) (values : List C) (caller : Caller)
      → t.table.admits db row ≡ false
      → (add_record t row values caller db ≡ none) × (change_record t row values caller db ≡ none)
  unfolding add_record change_record insert_row update_row
  refused db row values caller h =
      elim (Bool-cases
        (not (any (λ r. t.table.row_id r == t.table.row_id row) (t.table.rows db)))) [
          | inl new ↦ (rw (new, h), rw h)
          | inr old ↦ (rw old, rw h)
        ]

  pub stored :
      (db : FoundationDb) (row : A) (values : List C) (caller : Caller)
      → any (λ r. t.table.row_id r == t.table.row_id row) (t.table.rows db) ≡ false
      → t.table.admits db row ≡ true
      → CanAudit db (t.table.tenant_of row) caller
      → (db' : FoundationDb) × ((add_record t row values caller db ≡ some db')
          × (t.table.rows db' ≡ (row ∷ t.table.rows db)))
  unfolding add_record insert_row
  stored db row values caller fresh h can =
      let done = audited db (row ∷ t.table.rows db) row t.created values caller can in
      (done.0, (rw (fresh, h) (done.1.0), done.1.1))

  pub changed_stored :
      (db : FoundationDb) (row : A) (values : List C) (caller : Caller)
      → t.table.admits db row ≡ true
      → CanAudit db (t.table.tenant_of row) caller
      → (db' : FoundationDb) × ((change_record t row values caller db ≡ some db')
          × (t.table.rows db' ≡ map (replace t.table row) (t.table.rows db)))
  unfolding change_record update_row
  changed_stored db row values caller h can =
      let done =
        audited db (map (replace t.table row) (t.table.rows db)) row t.updated values caller can in
      (done.0, (rw h (done.1.0), done.1.1))

  -- Where no other row is for the workspace, the completeness of the row decides.
  pub admits_alone :
      (db : FoundationDb) (row : A)
      → has_workspace db (t.workspace_of row) (t.table.tenant_of row) ≡ true
      → any (clashes t row) (t.table.rows db) ≡ false
      → t.table.admits db row ≡ l.complete row
  admits_alone db row known alone =
      l.admits_is db row
      ∙ (rw (known, alone)
          (elim (Bool-cases (l.complete row)) [ inl full ↦ rw full | inr short ↦ rw short ]))

  pub admits_beside :
      (db : FoundationDb) (row : A)
      → any (clashes t row) (t.table.rows db) ≡ true
      → t.table.admits db row ≡ false
  admits_beside db row other =
      let known = has_workspace db (t.workspace_of row) (t.table.tenant_of row) in
      l.admits_is db row
      ∙ (rw other (elim (Bool-cases known) [
        | inl here ↦ elim (Bool-cases (l.complete row)) [
          | inl full ↦ rw (here, full)
          | inr short ↦ rw (here, short)
        ]
        | inr lost ↦ rw lost
      ]))

  -- The answers of a persisted row.
  pub stores :
      (db : FoundationDb) (row : A) (complete : Bool) (v : View A) (tenant workspace_id : ℕ)
      (written : Option FoundationDb)
      → ((a b : ℕ) → view t db a b ≡ v a b)
      → ((complete ≡ false) × (written ≡ none))
        ⊎ ((complete ≡ true)
            × ((db' : FoundationDb) × ((written ≡ some db')
                  × ((a b : ℕ) → view t db' a b ≡ put v tenant workspace_id row a b))))
      → Refines t (persisted db row written) (store_complete complete v tenant workspace_id row)
  unfolding persisted
  stores db row complete v tenant workspace_id written same h = elim h [
    | inl (short, nothing) ↦ rw (short, nothing) (refl, same)
    | inr (full, (db', (something, looks))) ↦ rw (full, something) (refl, looks)
  ]
