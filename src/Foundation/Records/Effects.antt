-- ===== src/Foundation/Records/Effects.antt =====
-- The transactions of growth_os/services.py where they commit.
use growth_os.Prelude.{
  ℕ, ◌≡◌, refl, sym, ap, ◌∙◌, ◌⊎◌, inl, inr, true, false, not, ◌&&◌, Option, none, some, List, ◌∷◌,
  map, ◌==◌, Bool-cases, some_injective, ok, Result-cases,
}
use growth_os.Execution.Store.{any, AuditEvent}
use growth_os.Execution.Store.Rows.{and_left, and_right, not-true}
use growth_os.Execution.Service.Reads.{and_then-some}
use growth_os.Foundation.Tables.{FoundationDb, has_tenant}
use growth_os.Foundation.Changes.{set_all}
use growth_os.Foundation.Service.{
  Table, AuditedTable, insert_row, update_row, replace, add_audit, persisted, get_owned,
  workspace_table,
}
use growth_os.Foundation.Records.{
  Caller, field_audit, add_record, change_record, new_record, create_record, get_record,
  update_record,
}

-- A reply leaves the state, or the transaction committed.
pub persisted_cases :
    {A : Type 0} (db : FoundationDb) (row : A) (written : Option FoundationDb)
    → ((written ≡ none) × (((persisted db row written).1 ≡ db)))
      ⊎ ((db' : FoundationDb) × ((written ≡ some db') × (persisted db row written ≡ (ok row, db'))))
unfolding persisted
persisted_cases db row none = inl (refl, refl)
persisted_cases db row (some db') = inr (db', (refl, refl))

pub insert_row-some :
    {A C : Type 0} (t : Table A C) (row : A) (db db' : FoundationDb)
    → insert_row t row db ≡ some db'
    → (any (λ r. t.row_id r == t.row_id row) (t.rows db) ≡ false)
      × ((t.admits db row ≡ true) × (t.with_rows (row ∷ t.rows db) db ≡ db'))
unfolding insert_row
insert_row-some t row db db' h =
    elim (Bool-cases (not (any (λ r. t.row_id r == t.row_id row) (t.rows db)) && t.admits db row)) [
      | inr off ↦ cc (rw off at h)
      | inl on ↦ (
        not-true _ (and_left _ _ on),
        (
          and_right (not (any (λ r. t.row_id r == t.row_id row) (t.rows db))) _ on,
          some_injective (rw on at h),
        ),
      )
    ]

pub update_row-some :
    {A C : Type 0} (t : Table A C) (row : A) (db db' : FoundationDb)
    → update_row t row db ≡ some db'
    → (t.admits db row ≡ true) × (t.with_rows (map (replace t row) (t.rows db)) db ≡ db')
unfolding update_row
update_row-some t row db db' h = elim (Bool-cases (t.admits db row)) [
  | inr off ↦ cc (rw off at h)
  | inl on ↦ (on, some_injective (rw on at h))
]

pub add_audit-some :
    (event : AuditEvent) (db db' : FoundationDb)
    → add_audit event db ≡ some db'
    → record db { audits = event ∷ db.audits } ≡ db'
unfolding add_audit
add_audit-some event db db' h =
    elim (Bool-cases
      (not (any (λ b. b.id == event.id) db.audits) && has_tenant db event.tenant_id)) [
        | inr off ↦ cc (rw off at h)
        | inl on ↦ some_injective (rw on at h)
      ]

-- A creation leaves the state, or adds the new row and its event.
pub create_record_cases :
    {A C : Type 0} (t : AuditedTable A C) (db : FoundationDb) (tenant workspace_id : ℕ)
    (values : List C) (caller : Caller) (row_id : ℕ)
    → ((create_record t db tenant workspace_id values caller row_id).1 ≡ db)
      ⊎ ((event : AuditEvent) × ((middle : FoundationDb) × ((insert_row t.table
                  (new_record t row_id tenant workspace_id values)
                  db
                ≡ some middle)
              × ((create_record t db tenant workspace_id values caller row_id).1
                  ≡ record middle { audits = event ∷ middle.audits }))))
unfolding create_record add_record
create_record_cases t db tenant workspace_id values caller row_id =
    let row = new_record t row_id tenant workspace_id values in
    elim (Result-cases (get_owned workspace_table db tenant workspace_id)) [
      | inr (e, failing) ↦ inl (rw (create_record, failing))
      | inl (w, read) ↦ elim (persisted_cases db row (add_record t row values caller db)) [
        | inl (refused, same) ↦ rw (create_record, read) (inl same)
        | inr (db', (committed, answer)) ↦
            let event = field_audit t row t.created values caller in
            let first = and_then-some (insert_row t.table row db) _ db' committed in
            rw (create_record, read)
              (inr (
                event,
                (
                  first.0,
                  (
                    first.1.0,
                    ap (λ o. o.1) answer ∙ sym (add_audit-some event first.0 db' first.1.1),
                  ),
                ),
              ))
      ]
    ]

-- An update leaves the state, or replaces the row that it read and adds its event.
pub update_record_cases :
    {A C : Type 0} (t : AuditedTable A C) (db : FoundationDb) (tenant workspace_id : ℕ)
    (changes : List C) (caller : Caller)
    → ((update_record t db tenant workspace_id changes caller).1 ≡ db)
      ⊎ ((row : A) × ((event : AuditEvent) × ((middle : FoundationDb) × ((get_record t db tenant
                    workspace_id
                  ≡ ok row)
                × ((update_row t.table (set_all t.table.set changes row) db ≡ some middle)
                    × ((update_record t db tenant workspace_id changes caller).1
                        ≡ record middle { audits = event ∷ middle.audits }))))))
unfolding update_record change_record
update_record_cases t db tenant workspace_id changes caller =
    elim (Result-cases (get_record t db tenant workspace_id)) [
      | inr (e, failing) ↦ inl (rw (update_record, failing))
      | inl (row, read) ↦
          let changed = set_all t.table.set changes row in
          elim (persisted_cases db changed (change_record t changed changes caller db)) [
            | inl (refused, same) ↦ rw (update_record, read) (inl same)
            | inr (db', (committed, answer)) ↦
                let event = field_audit t changed t.updated changes caller in
                let first = and_then-some (update_row t.table changed db) _ db' committed in
                rw (update_record, read)
                  (inr (
                    row,
                    (
                      event,
                      (
                        first.0,
                        (
                          refl,
                          (
                            first.1.0,
                            ap (λ o. o.1) answer ∙ sym (add_audit-some event first.0 db' first.1.1),
                          ),
                        ),
                      ),
                    ),
                  ))
          ]
    ]
