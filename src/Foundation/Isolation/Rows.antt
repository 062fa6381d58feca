-- ===== src/Foundation/Isolation/Rows.antt =====
-- The statements of growth_os/repositories.py and the rows of a tenant that they are not about.
use growth_os.Prelude.{
  ℕ, ◌≡◌, refl, sym, ap, ◌∙◌, inl, inr, false, Option, none, some, List, [], ◌∷◌, map, arith, ◌==◌,
  Within, Bool-cases, subst,
}
use growth_os.Execution.Store.{keep, any, AuditEvent}
use growth_os.Execution.Store.Rows.{any_refuse, Within-map, nat_eq_sound}
use growth_os.Foundation.Tables.{FoundationDb}
use growth_os.Foundation.Changes.{set_all}
use growth_os.Foundation.Service.{Table, insert_row, update_row, replace, add_audit, persisted}
use growth_os.Foundation.Records.Effects.{insert_row-some, update_row-some, add_audit-some}
use growth_os.Foundation.Isolation.{IsKeyed, IsKeyedDb, Leaves, IsTable}

pub Leaves_trans :
    (tenant : ℕ) (a b c : FoundationDb) → Leaves tenant a b → Leaves tenant b c → Leaves tenant a c
Leaves_trans tenant a b c f g = (g.0, g.1 ∙ f.1)

-- A reply leaves the tenant's rows where its transaction does.
pub persisted-Leaves :
    {A : Type 0} (tenant : ℕ) (db : FoundationDb) (row : A) (written : Option FoundationDb)
    → IsKeyedDb db
    → ((db' : FoundationDb) → written ≡ some db' → Leaves tenant db db')
    → Leaves tenant db (persisted db row written).1
unfolding persisted
persisted-Leaves tenant db row none k h = (k, refl)
persisted-Leaves tenant db row (some db') k h = h db' refl

pub add_audit-Leaves :
    (tenant : ℕ) (event : AuditEvent) (db db' : FoundationDb)
    → IsKeyedDb db
    → (event.tenant_id == tenant) ≡ false
    → add_audit event db ≡ some db'
    → Leaves tenant db db'
unfolding keep
add_audit-Leaves tenant event db db' k other h =
    subst (Leaves tenant db) (add_audit-some event db db' h) (
      record {
        workspaces = k.workspaces;
        memberships = k.memberships;
        sites = k.sites;
        connectors = k.connectors;
        business_profiles = k.business_profiles;
        primary_growth_goals = k.primary_growth_goals;
        autonomy_policies = k.autonomy_policies;
        competitors = k.competitors;
      },
      rw other,
    )

module _ {A C : Type 0} (t : Table A C) where
  -- A new row of another tenant.
  keep_other :
      (tenant : ℕ) (row : A) (rows : List A)
      → (t.tenant_of row == tenant) ≡ false
      → keep (λ r. t.tenant_of r == tenant) (row ∷ rows) ≡ keep (λ r. t.tenant_of r == tenant) rows
  unfolding keep
  keep_other tenant row rows other = rw other

  -- A replacement that only meets rows of other tenants.
  keep-replace :
      (tenant : ℕ) (changed : A) (rows : List A)
      → (t.tenant_of changed == tenant) ≡ false
      → ((r : A)
          → Within r rows
          → t.row_id r ≡ t.row_id changed
          → (t.tenant_of r == tenant) ≡ false)
      → keep (λ r. t.tenant_of r == tenant) (map (replace t changed) rows)
        ≡ keep (λ r. t.tenant_of r == tenant) rows
  unfolding keep
  keep-replace tenant changed [] other others = refl
  keep-replace tenant changed (r ∷ rows) other others =
      let rest = keep-replace tenant changed rows other (λ s w. others s (inr w)) in
      elim (Bool-cases (t.row_id r == t.row_id changed)) [
        | inl hit ↦ rw (hit, other, others r (inl refl) (nat_eq_sound hit), rest)
        | inr miss ↦ elim (Bool-cases (t.tenant_of r == tenant)) [
          | inl own ↦ rw (miss, own, rest)
          | inr not_own ↦ rw (miss, not_own, rest)
        ]
      ]

  replace_id : (changed r : A) → t.row_id (replace t changed r) ≡ t.row_id r
  replace_id changed r = elim (Bool-cases (t.row_id r == t.row_id changed)) [
    | inl hit ↦ rw hit (sym (nat_eq_sound hit))
    | inr miss ↦ rw miss
  ]

  replaced-IsKeyed :
      (changed : A) (rows : List A) → IsKeyed t rows → IsKeyed t (map (replace t changed) rows)
  replaced-IsKeyed changed rows k r s wr ws e =
      let a = Within-map (replace t changed) r rows wr in
      let b = Within-map (replace t changed) s rows ws in
      let same : t.row_id a.0 ≡ t.row_id b.0 =
        sym (replace_id changed a.0)
        ∙ ap (λ x. t.row_id x) (sym a.1.1)
        ∙ e
        ∙ ap (λ x. t.row_id x) b.1.1
        ∙ replace_id changed b.0 in
      a.1.1 ∙ ap (replace t changed) (k a.0 b.0 a.1.0 b.1.0 same) ∙ sym b.1.1

  pub added-IsKeyed :
      (row : A) (rows : List A)
      → IsKeyed t rows
      → any (λ r. t.row_id r == t.row_id row) rows ≡ false
      → IsKeyed t (row ∷ rows)
  added-IsKeyed row rows k fresh r s wr ws e =
      let new : (q : A) → Within q rows → t.row_id q ≡ t.row_id row → ⊥ = λ q w same.
        let other = any_refuse (λ x. t.row_id x == t.row_id row) q rows fresh w in ground arith in
      elim wr [
        | inl er ↦ elim ws [
          | inl es ↦ er ∙ sym es
          | inr ms ↦ absurd (new s ms (sym e ∙ ap (λ x. t.row_id x) er))
        ]
        | inr mr ↦ elim ws [
          | inl es ↦ absurd (new r mr (e ∙ ap (λ x. t.row_id x) es))
          | inr ms ↦ k r s mr ms e
        ]
      ]

  module _ (l : IsTable t) where
    pub set_all_owner :
        (changes : List C) (r : A)
        → (t.row_id (set_all t.set changes r) ≡ t.row_id r)
          × (t.tenant_of (set_all t.set changes r) ≡ t.tenant_of r)
    unfolding set_all
    set_all_owner [] r = (refl, refl)
    set_all_owner (c ∷ cs) r =
        let rest = set_all_owner cs (t.set c r) in
        (rest.0 ∙ l.set_id c r, rest.1 ∙ l.set_tenant c r)

    pub insert_row-Leaves :
        (tenant : ℕ) (row : A) (db db' : FoundationDb)
        → IsKeyedDb db
        → (t.tenant_of row == tenant) ≡ false
        → insert_row t row db ≡ some db'
        → Leaves tenant db db'
    insert_row-Leaves tenant row db db' k other h =
        let effect = insert_row-some t row db db' h in
        subst (Leaves tenant db) effect.1.1 (
          l.keyed_with (row ∷ t.rows db) db k
              (added-IsKeyed row (t.rows db) (l.keyed db k) effect.0),
          l.own_with tenant (row ∷ t.rows db) db (keep_other tenant row (t.rows db) other),
        )

    -- An update of a row that another tenant has.
    pub update_row-Leaves :
        (tenant : ℕ) (row : A) (changes : List C) (db db' : FoundationDb)
        → IsKeyedDb db
        → Within row (t.rows db)
        → (t.tenant_of row == tenant) ≡ false
        → update_row t (set_all t.set changes row) db ≡ some db'
        → Leaves tenant db db'
    update_row-Leaves tenant row changes db db' k here other h =
        let changed = set_all t.set changes row in
        let kept = set_all_owner changes row in
        let rows = map (replace t changed) (t.rows db) in
        let others : (r : A)
            → Within r (t.rows db)
            → t.row_id r ≡ t.row_id changed
            → (t.tenant_of r == tenant) ≡ false =
          λ r w e.
            ap (λ x. t.tenant_of x == tenant) (l.keyed db k r row w here (e ∙ kept.0)) ∙ other in
        subst (Leaves tenant db) ((update_row-some t changed db db' h).1) (
          l.keyed_with rows db k (replaced-IsKeyed changed (t.rows db) (l.keyed db k)),
          l.own_with tenant rows db (
              keep-replace tenant changed (t.rows db) (ap (λ x. x == tenant) kept.1 ∙ other)
                others),
        )
