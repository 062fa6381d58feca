-- ===== src/Foundation/Records/Maps.antt =====
-- `create_*`, `get_*` and `update_*` of growth_os/services.py on a table with one row for a workspace,
-- as operations on the map from workspaces to rows.
use growth_os.Prelude.{ℕ, ◌≡◌, refl, inl, inr, false, List, ◌==◌, Option-cases}
use growth_os.Execution.Store.{any, find}
use growth_os.Foundation.Tables.{FoundationDb, has_workspace}
use growth_os.Foundation.Changes.{set_all}
use growth_os.Foundation.Service.{AuditedTable, persisted, get_owned}
use growth_os.Foundation.Records.{
  Caller, add_record, change_record, new_record, create_record, find_record, get_record,
  update_record,
}
use growth_os.Foundation.Records.View.{view, create_in, update_in, Refines, IsSingle, IsSingular}
use growth_os.Foundation.Records.Refines.{CanAudit, workspace_known, stores}
use growth_os.Foundation.Records.Creates.{creates_row, create_refused}
use growth_os.Foundation.Records.Changed.{changes_row}

module _ {A C : Type 0} (t : AuditedTable A C) (l : IsSingle t) where
  -- A creation answers as the creation on the map does, and leaves a state that looks as the map
  -- then does: not found without the workspace, a conflict where the workspace has a row or the new
  -- row is not complete, and else the new entry.
  pub create_record-Refines :
      (db : FoundationDb) (tenant workspace_id : ℕ) (values : List C) (caller : Caller) (row_id : ℕ)
      → any (λ r. t.table.row_id r == row_id) (t.table.rows db) ≡ false
      → CanAudit db tenant caller
      → Refines t (create_record t db tenant workspace_id values caller row_id) (
          create_in
            (has_workspace db workspace_id tenant)
            (l.complete (new_record t row_id tenant workspace_id values))
            (view t db)
            tenant
            workspace_id
            (new_record t row_id tenant workspace_id values))
  unfolding create_record get_owned has_workspace find_record find any persisted
  create_record-Refines db tenant workspace_id values caller row_id fresh can =
      let row = new_record t row_id tenant workspace_id values in
      elim (workspace_known db tenant workspace_id) [
        | inr (lost, unread) ↦ rw (unread, lost) (refl, λ a b. refl)
        | inl (known, (w, read)) ↦
            rw (read, known)
              (elim (Option-cases (view t db tenant workspace_id)) [
                | inr (old, found) ↦
                    rw
                      (
                        found,
                        create_refused t l db tenant workspace_id values caller row_id old fresh
                            found,
                      )
                      (refl, λ a b. refl)
                | inl absent ↦ rw absent (
                    stores t l db row (l.complete row) (view t db) tenant workspace_id
                      (add_record t row values caller db) (λ a b. refl)
                      (creates_row t l db tenant workspace_id values caller row_id fresh can known
                        absent))
              ])
      ]

  -- An update answers as the update on the map does, and leaves a state that looks as the map then
  -- does: not found without the workspace or its row, a conflict where the changed row is not
  -- complete, and else the changed entry and no other change.
  pub update_record-Refines :
      (db : FoundationDb) (tenant workspace_id : ℕ) (changes : List C) (caller : Caller)
      → IsSingular t (t.table.rows db)
      → CanAudit db tenant caller
      → Refines t (update_record t db tenant workspace_id changes caller) (
          update_in
            (has_workspace db workspace_id tenant)
            l.complete
            (set_all t.table.set changes)
            (view t db)
            tenant
            workspace_id)
  unfolding update_record get_record get_owned has_workspace find_record find any persisted
  update_record-Refines db tenant workspace_id changes caller single can =
      elim (workspace_known db tenant workspace_id) [
        | inr (lost, unread) ↦ rw (unread, lost) (refl, λ a b. refl)
        | inl (known, (w, read)) ↦
            rw (read, known)
              (elim (Option-cases (view t db tenant workspace_id)) [
                | inl absent ↦ rw absent (refl, λ a b. refl)
                | inr (row, found) ↦ rw found (
                    stores t l db (set_all t.table.set changes row)
                      (l.complete (set_all t.table.set changes row)) (view t db) tenant workspace_id
                      (change_record t (set_all t.table.set changes row) changes caller db)
                      (λ a b. refl)
                      (changes_row t l db tenant workspace_id changes caller row single can known
                        found))
              ])
      ]
