-- ===== src/Foundation/Records/Creates.antt =====
-- The transaction of `create_*` of growth_os/services.py, and how the table looks after it.
use growth_os.Prelude.{
  ℕ, ◌≡◌, refl, sym, ap, ◌∙◌, ◌⊎◌, inl, inr, Bool, true, false, ◌&&◌, none, some, List, ◌∷◌, arith,
  ◌==◌, Bool-cases,
}
use growth_os.Execution.Store.{any, find}
use growth_os.Execution.Store.Rows.{find_sound, any_refuse}
use growth_os.Foundation.Tables.{FoundationDb, has_workspace, has_tenant}
use growth_os.Foundation.Service.{AuditedTable}
use growth_os.Foundation.Records.{Caller, add_record, new_record, find_record}
use growth_os.Foundation.Records.Keys.{find-any, any-Within, any_none, test_at}
use growth_os.Foundation.Records.View.{view, put, clashes, IsSingle}
use growth_os.Foundation.Records.Refines.{
  CanAudit, new_record_keys, find_record_is, refused, stored, admits_alone, admits_beside,
}

module _ {A C : Type 0} (t : AuditedTable A C) (l : IsSingle t) where
  -- The look of a state that has a new row for a workspace without one.
  look_added :
      (db db' : FoundationDb) (row : A) (tenant workspace_id a b : ℕ)
      → t.table.rows db' ≡ (row ∷ t.table.rows db)
      → t.table.tenant_of row ≡ tenant
      → t.workspace_of row ≡ workspace_id
      → view t db' a b ≡ put (view t db) tenant workspace_id row a b
  unfolding find
  look_added db db' row tenant workspace_id a b e own_tenant own_workspace =
      let tests =
        test_at (t.table.tenant_of row) (t.workspace_of row) tenant workspace_id a b own_tenant
          own_workspace in
      find_record_is t l db' (row ∷ t.table.rows db) a b e
      ∙ (rw tests (elim (Bool-cases (tenant == a && workspace_id == b)) [
        | inl hit ↦ rw hit
        | inr miss ↦ rw miss (sym (find_record_is t l db (t.table.rows db) a b refl))
      ]))

  -- No row for the workspace, no clash.
  none_clash :
      (db : FoundationDb) (row : A) (tenant workspace_id : ℕ)
      → t.table.tenant_of row ≡ tenant
      → t.workspace_of row ≡ workspace_id
      → view t db tenant workspace_id ≡ none
      → any (clashes t row) (t.table.rows db) ≡ false
  unfolding find_record
  none_clash db row tenant workspace_id own_tenant own_workspace absent =
      let of_workspace : A → Bool =
        λ r. t.table.tenant_of r == tenant && t.workspace_of r == workspace_id in
      let no_row = find-any of_workspace (t.table.rows db) absent in
      any_none (clashes t row) (t.table.rows db)
        λ r w. let other = any_refuse of_workspace r (t.table.rows db) no_row w in ground arith

  -- A row for the workspace clashes with a new one.
  some_clash :
      (db : FoundationDb) (row old : A) (tenant workspace_id : ℕ)
      → t.table.tenant_of row ≡ tenant
      → t.workspace_of row ≡ workspace_id
      → any (λ r. t.table.row_id r == t.table.row_id row) (t.table.rows db) ≡ false
      → view t db tenant workspace_id ≡ some old
      → any (clashes t row) (t.table.rows db) ≡ true
  unfolding find_record
  some_clash db row old tenant workspace_id own_tenant own_workspace fresh found =
      let of_workspace : A → Bool =
        λ r. t.table.tenant_of r == tenant && t.workspace_of r == workspace_id in
      let here = find_sound of_workspace old (t.table.rows db) found in
      let new =
        any_refuse (λ r. t.table.row_id r == t.table.row_id row) old (t.table.rows db) fresh
          here.0 in
      let hit = here.1 in any-Within (clashes t row) old (t.table.rows db) here.0 (ground arith)

  -- The transaction of a creation for a workspace without a row.
  pub creates_row :
      (db : FoundationDb) (tenant workspace_id : ℕ) (values : List C) (caller : Caller) (row_id : ℕ)
      → any (λ r. t.table.row_id r == row_id) (t.table.rows db) ≡ false
      → CanAudit db tenant caller
      → has_workspace db workspace_id tenant ≡ true
      → view t db tenant workspace_id ≡ none
      → ((l.complete (new_record t row_id tenant workspace_id values) ≡ false)
          × (add_record t (new_record t row_id tenant workspace_id values) values caller db ≡ none))
        ⊎ ((l.complete (new_record t row_id tenant workspace_id values) ≡ true)
            × ((db' : FoundationDb) × ((add_record t
                      (new_record t row_id tenant workspace_id values)
                      values
                      caller
                      db
                    ≡ some db')
                  × ((a b : ℕ)
                      → view t db' a b
                        ≡ put
                            (view t db)
                            tenant
                            workspace_id
                            (new_record t row_id tenant workspace_id values)
                            a
                            b))))
  creates_row db tenant workspace_id values caller row_id fresh can known absent =
      let row = new_record t row_id tenant workspace_id values in
      let keys = new_record_keys t l row_id tenant workspace_id values in
      let new = ap (λ i. any (λ r. t.table.row_id r == i) (t.table.rows db)) keys.0 ∙ fresh in
      let alone = none_clash db row tenant workspace_id keys.1.0 keys.1.1 absent in
      let owned : has_workspace db (t.workspace_of row) (t.table.tenant_of row) ≡ true =
        ap (λ n. has_workspace db n (t.table.tenant_of row)) keys.1.1
        ∙ ap (has_workspace db workspace_id) keys.1.0
        ∙ known in
      let decides = admits_alone t l db row owned alone in
      elim (Bool-cases (l.complete row)) [
        | inr short ↦ inl (short, (refused t l db row values caller (decides ∙ short)).0)
        | inl full ↦
            let done =
              stored t l db row values caller new (decides ∙ full)
                (can.0, ap (has_tenant db) keys.1.0 ∙ can.1) in
            inr (
              full,
              (
                done.0,
                (
                  done.1.0,
                  λ a b.
                      look_added db done.0 row tenant workspace_id a b done.1.1 keys.1.0 keys.1.1,
                ),
              ),
            )
      ]

  -- Where the workspace has a row, a creation is refused.
  pub create_refused :
      (db : FoundationDb) (tenant workspace_id : ℕ) (values : List C) (caller : Caller) (row_id : ℕ)
      (old : A)
      → any (λ r. t.table.row_id r == row_id) (t.table.rows db) ≡ false
      → view t db tenant workspace_id ≡ some old
      → add_record t (new_record t row_id tenant workspace_id values) values caller db ≡ none
  create_refused db tenant workspace_id values caller row_id old fresh found =
      let row = new_record t row_id tenant workspace_id values in
      let keys = new_record_keys t l row_id tenant workspace_id values in
      let new : any (λ r. t.table.row_id r == t.table.row_id row) (t.table.rows db) ≡ false =
        ap (λ i. any (λ r. t.table.row_id r == i) (t.table.rows db)) keys.0 ∙ fresh in
      let clash = some_clash db row old tenant workspace_id keys.1.0 keys.1.1 new found in
      (refused t l db row values caller (admits_beside t l db row clash)).0
