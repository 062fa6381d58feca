-- ===== src/Foundation/Isolation/Replies.antt =====
-- Whose rows the methods of `FoundationService` return.
use growth_os.Prelude.{
  ℕ, ◌≡◌, refl, sym, ap, ◌∙◌, inl, inr, Bool, true, ◌&&◌, Option, none, some, List, drop, ◌==◌,
  Within, Bool-cases, Result, ok, err, Result-cases, bind_ok, or_raise, ok_injective,
}
use growth_os.Text.{Text}
use growth_os.Execution.Store.{keep, find}
use growth_os.Execution.Store.Rows.{Within-keep, nat_eq_sound, and_left}
use growth_os.Execution.Service.{ServiceError, not_found}
use growth_os.Execution.Listing.{page}
use growth_os.Execution.Listing.Complete.{take-Within, drop-Within}
use growth_os.Foundation.{get_onboarding_status, onboarding_status}
use growth_os.Foundation.Tables.{MembershipRole, FoundationDb}
use growth_os.Foundation.Changes.{CompetitorField, set_all}
use growth_os.Foundation.Service.{
  Table, AuditedTable, persisted, get_tenant, get_owned, list_owned, update_owned, workspace_table,
  site_table, create_tenant, update_tenant, create_workspace, create_membership, create_site,
  create_connector,
}
use growth_os.Foundation.Records.{
  Caller, new_record, create_record, get_record, update_record, competitor_table, list_competitors,
  get_competitor, update_competitor,
}
use growth_os.Foundation.Isolation.{IsTable}
use growth_os.Foundation.Isolation.Rows.{set_all_owner}
use growth_os.Foundation.Isolation.Tables.{competitor-IsTable}
use growth_os.Foundation.Isolation.Owned.{
  get_owned_sound, get_record_sound, get_competitor_sound, get_tenant_sound,
}

-- What the call returns, if it returns, is so.
abbrev pub Returns : {A : Type 0} → (A → Type 0) → Result ServiceError A → Type 0
Returns P (ok a) = P a
Returns P (err e) = Unit {0}

pub persisted-Returns :
    {A : Type 0} (P : A → Type 0) (db : FoundationDb) (row : A) (written : Option FoundationDb)
    → P row
    → Returns P (persisted db row written).0
unfolding persisted
persisted-Returns P db row none h = tt
persisted-Returns P db row (some db') h = h

Returns-cases :
    {A : Type 0} (P : A → Type 0) (r : Result ServiceError A)
    → ((a : A) → r ≡ ok a → P a)
    → Returns P r
Returns-cases P (ok a) h = h a refl
Returns-cases P (err e) h = tt

-- A page shows rows that its query selects.
pub Within-page :
    {A : Type 0} (test : A → Bool) (order : List A → List A) (limit offset : ℕ) (rows : List A)
    → ((x : A) (xs : List A) → Within x (order xs) → Within x xs)
    → (x : A) → Within x (page test order limit offset rows).0
    → Within x rows × (test x ≡ true)
unfolding page
Within-page test order limit offset rows sorts x w =
    let selected = keep test rows in
    Within-keep test x rows (
      sorts x selected (
        drop-Within x offset (order selected)
          (take-Within x limit (drop offset (order selected)) w)))

module _ (db : FoundationDb) (tenant : ℕ) where
  pub get_owned-Returns :
      {A C : Type 0} (t : Table A C) (i : ℕ)
      → Returns (λ r. t.tenant_of r ≡ tenant) (get_owned t db tenant i)
  get_owned-Returns t i =
      Returns-cases (λ r. t.tenant_of r ≡ tenant) (get_owned t db tenant i)
        (λ r h. (get_owned_sound t db tenant i r h).1)

  pub get_record-Returns :
      {A C : Type 0} (t : AuditedTable A C) (w : ℕ)
      → Returns (λ r. t.table.tenant_of r ≡ tenant) (get_record t db tenant w)
  get_record-Returns t w =
      Returns-cases (λ r. t.table.tenant_of r ≡ tenant) (get_record t db tenant w)
        (λ r h. (get_record_sound t db tenant w r h).1)

  pub get_competitor-Returns :
      (w i : ℕ) → Returns (λ r. r.tenant_id ≡ tenant) (get_competitor db tenant w i)
  get_competitor-Returns w i =
      Returns-cases (λ r. r.tenant_id ≡ tenant) (get_competitor db tenant w i)
        (λ r h. (get_competitor_sound db tenant w i r h).1)

  pub get_tenant-Returns : Returns (λ r. r.id ≡ tenant) (get_tenant db tenant)
  get_tenant-Returns =
      Returns-cases (λ r. r.id ≡ tenant) (get_tenant db tenant)
        (λ r h. (get_tenant_sound db tenant r h).1)

  pub list_owned-Returns :
      {A C : Type 0} (t : Table A C) (order : List A → List A) (limit offset : ℕ)
      → ((x : A) (xs : List A) → Within x (order xs) → Within x xs)
      → Returns
          (λ found. (x : A) → Within x found.0 → t.tenant_of x ≡ tenant)
          (list_owned t order db tenant limit offset)
  unfolding list_owned
  list_owned-Returns t order limit offset sorts = elim (Result-cases (get_tenant db tenant)) [
    | inr (e, failing) ↦ rw (list_owned, failing) tt
    | inl (found, read) ↦
        rw (list_owned, read)
          (λ x w.
            nat_eq_sound
              (Within-page (λ r. t.tenant_of r == tenant) order limit offset (t.rows db) sorts x
                w).1)
  ]

  pub list_competitors-Returns :
      (order : List _ → List _) (w limit offset : ℕ)
      → ((x : _) (xs : List _) → Within x (order xs) → Within x xs)
      → Returns
          (λ found. (x : _) → Within x found.0 → x.tenant_id ≡ tenant)
          (list_competitors order db tenant w limit offset)
  unfolding list_competitors
  list_competitors-Returns order w limit offset sorts =
      elim (Result-cases (get_owned workspace_table db tenant w)) [
        | inr (e, failing) ↦ rw (list_competitors, failing) tt
        | inl (found, read) ↦
            rw (list_competitors, read)
              (λ x here. nat_eq_sound (
                and_left _ (x.workspace_id == w)
                  (Within-page (λ c. c.tenant_id == tenant && c.workspace_id == w) order limit
                    offset db.competitors sorts x here).1))
      ]

  pub update_owned-Returns :
      {A C : Type 0} (t : Table A C) (l : IsTable t) (i : ℕ) (changes : List C)
      → Returns (λ r. t.tenant_of r ≡ tenant) (update_owned t db tenant i changes).0
  unfolding update_owned
  update_owned-Returns t l i changes = elim (Result-cases (get_owned t db tenant i)) [
    | inr (e, failing) ↦ rw (update_owned, failing) tt
    | inl (row, read) ↦
        rw (update_owned, read)
          (persisted-Returns (λ r. t.tenant_of r ≡ tenant) db (set_all t.set changes row) _
            ((set_all_owner t l changes row).1 ∙ (get_owned_sound t db tenant i row read).1))
  ]

  module _ {A C : Type 0} (t : AuditedTable A C) (l : IsTable t.table) where
    pub create_record-Returns :
        (blank_tenant : (i a w : ℕ) → t.table.tenant_of (t.blank i a w) ≡ a) (w : ℕ)
        (values : List C) (caller : Caller) (i : ℕ)
        → Returns
            (λ r. t.table.tenant_of r ≡ tenant)
            (create_record t db tenant w values caller i).0
    unfolding create_record new_record
    create_record-Returns blank_tenant w values caller i =
        elim (Result-cases (get_owned workspace_table db tenant w)) [
          | inr (e, failing) ↦ rw (create_record, failing) tt
          | inl (found, read) ↦
              rw (create_record, read)
                (persisted-Returns (λ r. t.table.tenant_of r ≡ tenant) db
                  (new_record t i tenant w values) _
                  ((set_all_owner t.table l values (t.blank i tenant w)).1
                    ∙ blank_tenant i tenant w))
        ]

    pub update_record-Returns :
        (w : ℕ) (changes : List C) (caller : Caller)
        → Returns (λ r. t.table.tenant_of r ≡ tenant) (update_record t db tenant w changes caller).0
    unfolding update_record
    update_record-Returns w changes caller = elim (Result-cases (get_record t db tenant w)) [
      | inr (e, failing) ↦ rw (update_record, failing) tt
      | inl (row, read) ↦
          rw (update_record, read)
            (persisted-Returns (λ r. t.table.tenant_of r ≡ tenant) db
              (set_all t.table.set changes row) _
              ((set_all_owner t.table l changes row).1
                ∙ (get_record_sound t db tenant w row read).1))
    ]

  pub update_competitor-Returns :
      (w i : ℕ) (changes : List CompetitorField) (caller : Caller)
      → Returns (λ r. r.tenant_id ≡ tenant) (update_competitor db tenant w i changes caller).0
  unfolding update_competitor
  update_competitor-Returns w i changes caller =
      elim (Result-cases (get_competitor db tenant w i)) [
        | inr (e, failing) ↦ rw (update_competitor, failing) tt
        | inl (row, read) ↦
            rw (update_competitor, read)
              (persisted-Returns (λ r. r.tenant_id ≡ tenant) db
                (set_all competitor_table.table.set changes row) _
                ((set_all_owner competitor_table.table competitor-IsTable changes row).1
                  ∙ (get_competitor_sound db tenant w i row read).1))
      ]

  pub create_workspace-Returns :
      (name : Text) (i : ℕ)
      → Returns (λ r. r.tenant_id ≡ tenant) (create_workspace db tenant name i).0
  unfolding create_workspace
  create_workspace-Returns name i = elim (Result-cases (get_tenant db tenant)) [
    | inr (e, failing) ↦ rw (create_workspace, failing) tt
    | inl (found, read) ↦
        rw (create_workspace, read) (persisted-Returns (λ r. r.tenant_id ≡ tenant) db _ _ refl)
  ]

  pub create_membership-Returns :
      (w user_id : ℕ) (role : MembershipRole) (i : ℕ)
      → Returns (λ r. r.tenant_id ≡ tenant) (create_membership db tenant w user_id role i).0
  unfolding create_membership
  create_membership-Returns w user_id role i =
      elim (Result-cases (get_owned workspace_table db tenant w)) [
        | inr (e, failing) ↦ rw (create_membership, failing) tt
        | inl (found, read) ↦
            rw (create_membership, read) (persisted-Returns (λ r. r.tenant_id ≡ tenant) db _ _ refl)
      ]

  pub create_site-Returns :
      (w : ℕ) (name url : Text) (i : ℕ)
      → Returns (λ r. r.tenant_id ≡ tenant) (create_site db tenant w name url i).0
  unfolding create_site
  create_site-Returns w name url i = elim (Result-cases (get_owned workspace_table db tenant w)) [
    | inr (e, failing) ↦ rw (create_site, failing) tt
    | inl (found, read) ↦
        rw (create_site, read) (persisted-Returns (λ r. r.tenant_id ≡ tenant) db _ _ refl)
  ]

  pub create_connector-Returns :
      (w site_id : ℕ) (kind : Text) (i : ℕ)
      → Returns (λ r. r.tenant_id ≡ tenant) (create_connector db tenant w site_id kind i).0
  unfolding create_connector
  create_connector-Returns w site_id kind i =
      elim (Result-cases (get_owned site_table db tenant site_id)) [
        | inr (e, failing) ↦ rw (create_connector, failing) tt
        | inl (site, read) ↦ elim (Bool-cases (site.workspace_id == w)) [
          | inr elsewhere ↦ rw (create_connector, read, elsewhere) tt
          | inl here ↦
              rw (create_connector, read, here)
                (persisted-Returns (λ r. r.tenant_id ≡ tenant) db _ _ refl)
        ]
      ]

  pub update_tenant-Returns :
      (name : Text) → Returns (λ r. r.id ≡ tenant) (update_tenant db tenant name).0
  unfolding update_tenant
  update_tenant-Returns name = elim (Result-cases (get_tenant db tenant)) [
    | inr (e, failing) ↦ rw (update_tenant, failing) tt
    | inl (found, read) ↦
        rw (update_tenant, read)
          (persisted-Returns (λ r. r.id ≡ tenant) db _ _ (get_tenant_sound db tenant found read).1)
  ]

  pub create_tenant-Returns :
      (name : Text) → Returns (λ r. r.id ≡ tenant) (create_tenant db name tenant).0
  unfolding create_tenant
  create_tenant-Returns name = persisted-Returns (λ r. r.id ≡ tenant) db _ _ refl

  pub get_onboarding_status-Returns :
      (w : ℕ) → Returns (λ s. s.tenant_id ≡ tenant) (get_onboarding_status db tenant w)
  unfolding get_onboarding_status onboarding_status
  get_onboarding_status-Returns w =
      Returns-cases (λ s. s.tenant_id ≡ tenant) (get_onboarding_status db tenant w)
        (λ s h.
          let step =
            bind_ok
              (or_raise (find (λ r. r.id == w && r.tenant_id == tenant) db.workspaces) not_found) _
              s h in
          sym (ap (λ x. x.tenant_id) (ok_injective step.1.1)))
