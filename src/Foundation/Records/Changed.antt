-- ===== src/Foundation/Records/Changed.antt =====
-- The transaction of `update_*` of growth_os/services.py, and how the table looks after it.
use growth_os.Prelude.{
  ℕ, ◌≡◌, refl, sym, ap, ◌∙◌, ◌⊎◌, inl, inr, Bool, true, false, ◌&&◌, none, some, List, map, ◌==◌,
  Within, Bool-cases, Option-cases,
}
use mathlib.Core.Option.{map as map_some}
use growth_os.Execution.Store.{find}
use growth_os.Execution.Store.Rows.{find_sound, and_left, and_right, nat_eq_sound}
use growth_os.Foundation.Tables.{FoundationDb, has_workspace, has_tenant}
use growth_os.Foundation.Changes.{set_all}
use growth_os.Foundation.Service.{AuditedTable, replace}
use growth_os.Foundation.Records.{Caller, change_record}
use growth_os.Foundation.Records.Keys.{
  any_none, find-map, not_same, same_nat, both, true_and_false, test_at,
}
use growth_os.Foundation.Records.View.{view, put, clashes, IsSingle, IsSingular}
use growth_os.Foundation.Records.Refines.{
  CanAudit, set_all_keys, find_record_is, refused, changed_stored, admits_alone,
}

module _ {A C : Type 0} (t : AuditedTable A C) (l : IsSingle t) where
  -- Replacing the row of a workspace by one with its keys leaves the keys of every row.
  replace_keys :
      (rows : List A) (row changed q : A)
      → IsSingular t rows
      → Within row rows
      → t.table.row_id changed ≡ t.table.row_id row
      → t.table.tenant_of changed ≡ t.table.tenant_of row
      → t.workspace_of changed ≡ t.workspace_of row
      → Within q rows
      → ((q ≡ row) × (replace t.table changed q ≡ changed))
        ⊎ ((q ≡ row → ⊥) × (replace t.table changed q ≡ q))
  replace_keys rows row changed q single here same_id same_tenant same_workspace w =
      elim (Bool-cases (t.table.row_id q == t.table.row_id changed)) [
        | inl hit ↦ inl (single.one_row q row w here (nat_eq_sound hit ∙ same_id), rw hit)
        | inr miss ↦ inr (
          λ e.
              not_same (t.table.row_id q) (t.table.row_id changed) miss
                (ap (λ r. t.table.row_id r) e ∙ sym same_id),
          rw miss,
        )
      ]

  module _ (rows : List A) (row changed : A) (tenant workspace_id : ℕ) (single : IsSingular t rows)
      (here : Within row rows) (same_id : t.table.row_id changed ≡ t.table.row_id row)
      (same_tenant : t.table.tenant_of changed ≡ t.table.tenant_of row)
      (same_workspace : t.workspace_of changed ≡ t.workspace_of row)
      (own_tenant : t.table.tenant_of row ≡ tenant)
      (own_workspace : t.workspace_of row ≡ workspace_id) (a b : ℕ) where
    at_key : A → Bool
    at_key r = t.table.tenant_of r == a && t.workspace_of r == b

    -- A replacement changes what a query finds, and not whether it finds.
    find_replaced :
        find at_key (map (replace t.table changed) rows)
        ≡ map_some (replace t.table changed) (find at_key rows)
    unfolding at_key
    find_replaced = find-map at_key (replace t.table changed) rows λ q w.
        elim (replace_keys rows row changed q single here same_id same_tenant same_workspace w) [
          | inl (is_row, done) ↦
              ap at_key done
              ∙ test_at (t.table.tenant_of changed) (t.workspace_of changed) (t.table.tenant_of q)
                  (t.workspace_of q) a b (same_tenant ∙ sym (ap (λ r. t.table.tenant_of r) is_row))
                  (same_workspace ∙ sym (ap (λ r. t.workspace_of r) is_row))
          | inr (other, kept) ↦ ap at_key kept
        ]

    -- The row itself is replaced.
    replaced_own : replace t.table changed row ≡ changed
    replaced_own =
        elim (replace_keys rows row changed row single here same_id same_tenant same_workspace
          here) [ inl (is_row, done) ↦ done | inr (other, kept) ↦ absurd (other refl) ]

    -- The rows of other workspaces are not.
    replaced_other :
        (tenant == a && workspace_id == b) ≡ false
        → map_some (replace t.table changed) (find at_key rows) ≡ find at_key rows
    unfolding at_key
    replaced_other miss = elim (Option-cases (find at_key rows)) [
      | inl absent ↦ rw absent
      | inr (q, read) ↦
          let found = find_sound at_key q rows read in
          rw read
            (elim (replace_keys rows row changed q single here same_id same_tenant same_workspace
              found.0) [
                | inr (other, kept) ↦ ap some kept
                | inl (is_row, done) ↦
                    let q_tenant = nat_eq_sound (and_left (t.table.tenant_of q == a) _ found.1) in
                    let q_workspace =
                      nat_eq_sound (and_right (t.table.tenant_of q == a) _ found.1) in
                    absurd (
                      true_and_false (tenant == a && workspace_id == b)
                        (both (tenant == a) (workspace_id == b)
                          (same_nat tenant a (
                            sym own_tenant ∙ sym (ap (λ r. t.table.tenant_of r) is_row) ∙ q_tenant))
                          (same_nat workspace_id b (
                            sym own_workspace
                            ∙ sym (ap (λ r. t.workspace_of r) is_row)
                            ∙ q_workspace)))
                        miss)
              ])
    ]

  -- The workspace's row, as its query finds it.
  found_row :
      (db : FoundationDb) (row : A) (tenant workspace_id : ℕ)
      → view t db tenant workspace_id ≡ some row
      → Within row (t.table.rows db)
        × ((t.table.tenant_of row ≡ tenant) × (t.workspace_of row ≡ workspace_id))
  found_row db row tenant workspace_id found =
      let here =
        find_sound (λ r. t.table.tenant_of r == tenant && t.workspace_of r == workspace_id) row
          (t.table.rows db)
          (sym (find_record_is t l db (t.table.rows db) tenant workspace_id refl) ∙ found) in
      (
        here.0,
        (
          nat_eq_sound (and_left (t.table.tenant_of row == tenant) _ here.1),
          nat_eq_sound (and_right (t.table.tenant_of row == tenant) _ here.1),
        ),
      )

  -- The look of a state in which the row of a workspace is replaced.
  look_changed :
      (db db' : FoundationDb) (row changed : A) (tenant workspace_id a b : ℕ)
      → t.table.rows db' ≡ map (replace t.table changed) (t.table.rows db)
      → IsSingular t (t.table.rows db)
      → t.table.row_id changed ≡ t.table.row_id row
      → t.table.tenant_of changed ≡ t.table.tenant_of row
      → t.workspace_of changed ≡ t.workspace_of row
      → view t db tenant workspace_id ≡ some row
      → view t db' a b ≡ put (view t db) tenant workspace_id changed a b
  unfolding at_key
  look_changed db db' row changed tenant workspace_id a b e single same_id same_tenant
        same_workspace found =
      let rows = t.table.rows db in
      let own = found_row db row tenant workspace_id found in
      find_record_is t l db' (map (replace t.table changed) rows) a b e
      ∙ find_replaced rows row changed tenant workspace_id single own.0 same_id same_tenant
          same_workspace own.1.0 own.1.1 a b
      ∙ (elim (Bool-cases (tenant == a && workspace_id == b)) [
        | inl hit ↦
            let read =
              sym (find_record_is t l db rows a b refl)
              ∙ ap (λ n. view t db n b) (sym (nat_eq_sound (and_left (tenant == a) _ hit)))
              ∙ ap (view t db tenant) (sym (nat_eq_sound (and_right (tenant == a) _ hit)))
              ∙ found in
            rw (hit, read)
              (ap some (
                replaced_own rows row changed tenant workspace_id single own.0 same_id same_tenant
                  same_workspace own.1.0 own.1.1 a b))
        | inr miss ↦
            rw (miss, find_record_is t l db rows a b refl)
              (replaced_other rows row changed tenant workspace_id single own.0 same_id same_tenant
                same_workspace own.1.0 own.1.1 a b miss)
      ])

  no_clash :
      (rows : List A) (row changed q : A)
      → IsSingular t rows
      → Within row rows
      → t.table.row_id changed ≡ t.table.row_id row
      → t.table.tenant_of changed ≡ t.table.tenant_of row
      → t.workspace_of changed ≡ t.workspace_of row
      → Within q rows
      → clashes t changed q ≡ false
  no_clash rows row changed q single here same_id same_tenant same_workspace w =
      elim (Bool-cases (
        t.table.tenant_of q == t.table.tenant_of changed
        && t.workspace_of q == t.workspace_of changed)) [
          | inr other ↦ rw other (elim (Bool-cases (t.table.row_id q == t.table.row_id changed)) [
            | inl i ↦ rw i
            | inr i ↦ rw i
          ])
          | inl own ↦
              let alike =
                single.one_each q row w here
                  (nat_eq_sound (and_left (t.table.tenant_of q == t.table.tenant_of changed) _ own)
                    ∙ same_tenant)
                  (nat_eq_sound (and_right (t.table.tenant_of q == t.table.tenant_of changed) _ own)
                    ∙ same_workspace) in
              rw (same_nat (t.table.row_id q) (t.table.row_id changed) (alike ∙ sym same_id))
        ]

  -- The transaction of an update of a workspace's row.
  pub changes_row :
      (db : FoundationDb) (tenant workspace_id : ℕ) (changes : List C) (caller : Caller) (row : A)
      → IsSingular t (t.table.rows db)
      → CanAudit db tenant caller
      → has_workspace db workspace_id tenant ≡ true
      → view t db tenant workspace_id ≡ some row
      → ((l.complete (set_all t.table.set changes row) ≡ false)
          × (change_record t (set_all t.table.set changes row) changes caller db ≡ none))
        ⊎ ((l.complete (set_all t.table.set changes row) ≡ true)
            × ((db' : FoundationDb) × ((change_record t
                      (set_all t.table.set changes row)
                      changes
                      caller
                      db
                    ≡ some db')
                  × ((a b : ℕ)
                      → view t db' a b
                        ≡ put
                            (view t db)
                            tenant
                            workspace_id
                            (set_all t.table.set changes row)
                            a
                            b))))
  changes_row db tenant workspace_id changes caller row single can known found =
      let rows = t.table.rows db in
      let changed = set_all t.table.set changes row in
      let keys = set_all_keys t l changes row in
      let own = found_row db row tenant workspace_id found in
      let alone =
        any_none (clashes t changed) rows
          λ q w. no_clash rows row changed q single own.0 keys.0 keys.1.0 keys.1.1 w in
      let owned : has_workspace db (t.workspace_of changed) (t.table.tenant_of changed) ≡ true =
        ap (λ n. has_workspace db n (t.table.tenant_of changed)) (keys.1.1 ∙ own.1.1)
        ∙ ap (has_workspace db workspace_id) (keys.1.0 ∙ own.1.0)
        ∙ known in
      let decides = admits_alone t l db changed owned alone in
      elim (Bool-cases (l.complete changed)) [
        | inr short ↦ inl (short, (refused t l db changed changes caller (decides ∙ short)).1)
        | inl full ↦
            let done =
              changed_stored t l db changed changes caller (decides ∙ full)
                (can.0, ap (has_tenant db) (keys.1.0 ∙ own.1.0) ∙ can.1) in
            inr (
              full,
              (
                done.0,
                (
                  done.1.0,
                  λ a b.
                      look_changed db done.0 row changed tenant workspace_id a b done.1.1 single
                        keys.0 keys.1.0 keys.1.1 found,
                ),
              ),
            )
      ]
