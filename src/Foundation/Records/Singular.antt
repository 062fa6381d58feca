-- ===== src/Foundation/Records/Singular.antt =====
-- That a workspace has one row at most, through the calls of growth_os/services.py.
use growth_os.Prelude.{
  ℕ, ◌≡◌, sym, ap, ◌∙◌, inl, inr, true, false, ◌&&◌, List, ◌∷◌, map, arith, ◌==◌, Within,
  Bool-cases, subst, ok, bind_ok, or_raise_ok,
}
use growth_os.Execution.Store.{any}
use growth_os.Execution.Store.Rows.{
  any_refuse, Within-map, find_sound, and_right, not-true, nat_eq_sound,
}
use growth_os.Execution.Service.{not_found}
use growth_os.Foundation.Tables.{FoundationDb, has_workspace}
use growth_os.Foundation.Changes.{set_all}
use growth_os.Foundation.Service.{AuditedTable, replace, get_owned, workspace_table}
use growth_os.Foundation.Records.{
  Caller, new_record, create_record, get_record, find_record, update_record,
}
use growth_os.Foundation.Records.View.{clashes, IsSingle, IsSingular}
use growth_os.Foundation.Records.Refines.{set_all_keys}
use growth_os.Foundation.Records.Effects.{
  insert_row-some, update_row-some, create_record_cases, update_record_cases,
}

module _ {A C : Type 0} (t : AuditedTable A C) (l : IsSingle t) where
  -- An admitted row has no other row for its workspace beside it.
  alone :
      (db : FoundationDb) (r : A)
      → t.table.admits db r ≡ true
      → any (clashes t r) (t.table.rows db) ≡ false
  alone db r h =
      let parts = sym (l.admits_is db r) ∙ h in
      let known = has_workspace db (t.workspace_of r) (t.table.tenant_of r) in
      not-true _ (and_right (l.complete r) _ (and_right known _ parts))

  same_key :
      (r q : A)
      → clashes t r q ≡ false
      → t.table.tenant_of q ≡ t.table.tenant_of r
      → t.workspace_of q ≡ t.workspace_of r
      → t.table.row_id q ≡ t.table.row_id r
  same_key r q apart own_tenant own_workspace = ground arith

  pub added-IsSingular :
      (db : FoundationDb) (row : A)
      → IsSingular t (t.table.rows db)
      → any (λ r. t.table.row_id r == t.table.row_id row) (t.table.rows db) ≡ false
      → t.table.admits db row ≡ true
      → IsSingular t (row ∷ t.table.rows db)
  added-IsSingular db row c fresh admitted =
      let apart : (q : A) → Within q (t.table.rows db) → clashes t row q ≡ false =
        λ q w. any_refuse (clashes t row) q (t.table.rows db) (alone db row admitted) w in
      let new : (q : A) → Within q (t.table.rows db) → t.table.row_id q ≡ t.table.row_id row → ⊥ =
        λ q w e.
          let other =
            any_refuse (λ r. t.table.row_id r == t.table.row_id row) q (t.table.rows db) fresh w in
          ground arith in
      record {
        one_row = λ r s wr ws e. elim wr [
          | inl er ↦ elim ws [
            | inl es ↦ er ∙ sym es
            | inr ms ↦ absurd (new s ms (sym e ∙ ap (λ x. t.table.row_id x) er))
          ]
          | inr mr ↦ elim ws [
            | inl es ↦ absurd (new r mr (e ∙ ap (λ x. t.table.row_id x) es))
            | inr ms ↦ c.one_row r s mr ms e
          ]
        ];
        one_each = λ r s wr ws e f. elim wr [
          | inl er ↦ elim ws [
            | inl es ↦ ap (λ x. t.table.row_id x) (er ∙ sym es)
            | inr ms ↦
                ap (λ x. t.table.row_id x) er
                ∙ sym (
                    same_key row s (apart s ms) (sym e ∙ ap (λ x. t.table.tenant_of x) er)
                      (sym f ∙ ap (λ x. t.workspace_of x) er))
          ]
          | inr mr ↦ elim ws [
            | inl es ↦
                same_key row r (apart r mr) (e ∙ ap (λ x. t.table.tenant_of x) es)
                  (f ∙ ap (λ x. t.workspace_of x) es)
                ∙ sym (ap (λ x. t.table.row_id x) es)
            | inr ms ↦ c.one_each r s mr ms e f
          ]
        ];
      }

  -- Every row that a replacement leaves comes from one with its identifier, tenant and workspace.
  replaced :
      (rows : List A) (row changed q : A)
      → IsSingular t rows
      → Within row rows
      → t.table.row_id changed ≡ t.table.row_id row
      → t.table.tenant_of changed ≡ t.table.tenant_of row
      → t.workspace_of changed ≡ t.workspace_of row
      → Within q (map (replace t.table changed) rows)
      → (old : A) × (Within old rows
          × ((q ≡ replace t.table changed old)
              × ((t.table.row_id q ≡ t.table.row_id old)
                  × ((t.table.tenant_of q ≡ t.table.tenant_of old)
                      × (t.workspace_of q ≡ t.workspace_of old)))))
  replaced rows row changed q c here same_id same_tenant same_workspace w =
      let source = Within-map (replace t.table changed) q rows w in
      let old = source.0 in
      elim (Bool-cases (t.table.row_id old == t.table.row_id changed)) [
        | inl hit ↦
            let is_row = c.one_row old row source.1.0 here (nat_eq_sound hit ∙ same_id) in
            let q_is : q ≡ changed = source.1.1 ∙ (rw hit) in
            (
              old,
              (
                source.1.0,
                (
                  source.1.1,
                  (
                    ap (λ x. t.table.row_id x) q_is
                        ∙ same_id
                        ∙ sym (ap (λ x. t.table.row_id x) is_row),
                    (
                      ap (λ x. t.table.tenant_of x) q_is
                          ∙ same_tenant
                          ∙ sym (ap (λ x. t.table.tenant_of x) is_row),
                      ap (λ x. t.workspace_of x) q_is
                          ∙ same_workspace
                          ∙ sym (ap (λ x. t.workspace_of x) is_row),
                    ),
                  ),
                ),
              ),
            )
        | inr miss ↦
            let q_is : q ≡ old = source.1.1 ∙ (rw miss) in
            (
              old,
              (
                source.1.0,
                (
                  source.1.1,
                  (
                    ap (λ x. t.table.row_id x) q_is,
                    (ap (λ x. t.table.tenant_of x) q_is, ap (λ x. t.workspace_of x) q_is),
                  ),
                ),
              ),
            )
      ]

  pub replaced-IsSingular :
      (rows : List A) (row changed : A)
      → IsSingular t rows
      → Within row rows
      → t.table.row_id changed ≡ t.table.row_id row
      → t.table.tenant_of changed ≡ t.table.tenant_of row
      → t.workspace_of changed ≡ t.workspace_of row
      → IsSingular t (map (replace t.table changed) rows)
  replaced-IsSingular rows row changed c here same_id same_tenant same_workspace =
      let back : (q : A)
          → Within q (map (replace t.table changed) rows)
          → (old : A) × (Within old rows
              × ((q ≡ replace t.table changed old)
                  × ((t.table.row_id q ≡ t.table.row_id old)
                      × ((t.table.tenant_of q ≡ t.table.tenant_of old)
                          × (t.workspace_of q ≡ t.workspace_of old))))) =
        λ q w. replaced rows row changed q c here same_id same_tenant same_workspace w in
      record {
        one_row = λ r s wr ws e.
            let a = back r wr in
            let b = back s ws in
            a.1.1.0
            ∙ ap (replace t.table changed)
                (c.one_row a.0 b.0 a.1.0 b.1.0 (sym a.1.1.1.0 ∙ e ∙ b.1.1.1.0))
            ∙ sym b.1.1.0;
        one_each = λ r s wr ws e f.
            let a = back r wr in
            let b = back s ws in
            a.1.1.1.0
            ∙ c.one_each a.0 b.0 a.1.0 b.1.0 (sym a.1.1.1.1.0 ∙ e ∙ b.1.1.1.1.0)
                (sym a.1.1.1.1.1 ∙ f ∙ b.1.1.1.1.1)
            ∙ sym b.1.1.1.0;
      }

  -- A creation keeps one row for a workspace at most, whatever identifier it draws.
  pub create_record-IsSingular :
      (db : FoundationDb) (tenant workspace_id : ℕ) (values : List C) (caller : Caller) (row_id : ℕ)
      → IsSingular t (t.table.rows db)
      → IsSingular t (t.table.rows (create_record t db tenant workspace_id values caller row_id).1)
  create_record-IsSingular db tenant workspace_id values caller row_id c =
      elim (create_record_cases t db tenant workspace_id values caller row_id) [
        | inl same ↦ subst (λ d. IsSingular t (t.table.rows d)) (sym same) c
        | inr (event, (middle, (inserted, answer))) ↦
            let row = new_record t row_id tenant workspace_id values in
            let effect = insert_row-some t.table row db middle inserted in
            subst (IsSingular t)
              (sym (
                ap (λ d. t.table.rows d) answer
                ∙ l.rows_audits middle (event ∷ middle.audits)
                ∙ sym (ap (λ d. t.table.rows d) effect.1.1)
                ∙ l.rows_with (row ∷ t.table.rows db) db))
              (added-IsSingular db row c effect.0 effect.1.0)
      ]

  get_record-Within :
      (db : FoundationDb) (tenant workspace_id : ℕ) (row : A)
      → get_record t db tenant workspace_id ≡ ok row
      → Within row (t.table.rows db)
  unfolding get_record find_record
  get_record-Within db tenant workspace_id row h =
      let step = bind_ok (get_owned workspace_table db tenant workspace_id) _ row h in
      (find_sound (λ r. t.table.tenant_of r == tenant && t.workspace_of r == workspace_id) row
        (t.table.rows db) (or_raise_ok _ not_found row step.1.1)).0

  -- An update keeps one row for a workspace at most.
  pub update_record-IsSingular :
      (db : FoundationDb) (tenant workspace_id : ℕ) (changes : List C) (caller : Caller)
      → IsSingular t (t.table.rows db)
      → IsSingular t (t.table.rows (update_record t db tenant workspace_id changes caller).1)
  update_record-IsSingular db tenant workspace_id changes caller c =
      elim (update_record_cases t db tenant workspace_id changes caller) [
        | inl same ↦ subst (λ d. IsSingular t (t.table.rows d)) (sym same) c
        | inr (row, (event, (middle, (read, (changed_to, answer))))) ↦
            let changed = set_all t.table.set changes row in
            let keys = set_all_keys t l changes row in
            let effect = update_row-some t.table changed db middle changed_to in
            subst (IsSingular t)
              (sym (
                ap (λ d. t.table.rows d) answer
                ∙ l.rows_audits middle (event ∷ middle.audits)
                ∙ sym (ap (λ d. t.table.rows d) effect.1)
                ∙ l.rows_with (map (replace t.table changed) (t.table.rows db)) db))
              (replaced-IsSingular (t.table.rows db) row changed c
                (get_record-Within db tenant workspace_id row read) keys.0 keys.1.0 keys.1.1)
      ]
