-- ===== src/Foundation/Errors.antt =====
-- What the methods of `FoundationService` leave where they raise.
use growth_os.Prelude.{
  ℕ, ◌≡◌, refl, inl, inr, ◌==◌, Option, none, some, List, Bool-cases, Result, ok, err, Result-cases,
}
use growth_os.Text.{Text}
use growth_os.Foundation.Tables.{MembershipRole, FoundationDb}
use growth_os.Foundation.Changes.{CompetitorField}
use growth_os.Foundation.Service.{
  Table, AuditedTable, persisted, get_tenant, get_owned, update_owned, workspace_table, site_table,
  create_tenant, update_tenant, create_workspace, create_membership, create_site, create_connector,
}
use growth_os.Foundation.Records.{
  Caller, create_record, get_record, update_record, get_competitor, update_competitor,
}

-- An error comes with the state as it was.
abbrev pub RollsBack : {E A : Type 0} → FoundationDb → Result E A × FoundationDb → Type 0
RollsBack db (ok a, after) = Unit {0}
RollsBack db (err e, after) = after ≡ db

persisted-RollsBack :
    {A : Type 0} (db : FoundationDb) (row : A) (written : Option FoundationDb)
    → RollsBack db (persisted db row written)
unfolding persisted
persisted-RollsBack db row none = refl
persisted-RollsBack db row (some after) = tt

pub create_tenant-RollsBack :
    (db : FoundationDb) (name : Text) (i : ℕ) → RollsBack db (create_tenant db name i)
unfolding create_tenant
create_tenant-RollsBack db name i = persisted-RollsBack db _ _

pub update_owned-RollsBack :
    {A C : Type 0} (t : Table A C) (db : FoundationDb) (tenant i : ℕ) (changes : List C)
    → RollsBack db (update_owned t db tenant i changes)
unfolding update_owned
update_owned-RollsBack t db tenant i changes = elim (Result-cases (get_owned t db tenant i)) [
  | inr (e, failing) ↦ rw (update_owned, failing) refl
  | inl (found, read) ↦ rw (update_owned, read) (persisted-RollsBack db _ _)
]

pub create_workspace-RollsBack :
    (db : FoundationDb) (tenant : ℕ) (name : Text) (i : ℕ)
    → RollsBack db (create_workspace db tenant name i)
unfolding create_workspace
create_workspace-RollsBack db tenant name i = elim (Result-cases (get_tenant db tenant)) [
  | inr (e, failing) ↦ rw (create_workspace, failing) refl
  | inl (found, read) ↦ rw (create_workspace, read) (persisted-RollsBack db _ _)
]

pub create_membership-RollsBack :
    (db : FoundationDb) (tenant w user_id : ℕ) (role : MembershipRole) (i : ℕ)
    → RollsBack db (create_membership db tenant w user_id role i)
unfolding create_membership
create_membership-RollsBack db tenant w user_id role i =
    elim (Result-cases (get_owned workspace_table db tenant w)) [
      | inr (e, failing) ↦ rw (create_membership, failing) refl
      | inl (found, read) ↦ rw (create_membership, read) (persisted-RollsBack db _ _)
    ]

pub create_site-RollsBack :
    (db : FoundationDb) (tenant w : ℕ) (name url : Text) (i : ℕ)
    → RollsBack db (create_site db tenant w name url i)
unfolding create_site
create_site-RollsBack db tenant w name url i =
    elim (Result-cases (get_owned workspace_table db tenant w)) [
      | inr (e, failing) ↦ rw (create_site, failing) refl
      | inl (found, read) ↦ rw (create_site, read) (persisted-RollsBack db _ _)
    ]

pub update_tenant-RollsBack :
    (db : FoundationDb) (tenant : ℕ) (name : Text) → RollsBack db (update_tenant db tenant name)
unfolding update_tenant
update_tenant-RollsBack db tenant name = elim (Result-cases (get_tenant db tenant)) [
  | inr (e, failing) ↦ rw (update_tenant, failing) refl
  | inl (found, read) ↦ rw (update_tenant, read) (persisted-RollsBack db _ _)
]

pub create_record-RollsBack :
    {A C : Type 0} (t : AuditedTable A C) (db : FoundationDb) (tenant w : ℕ) (values : List C)
    (caller : Caller) (i : ℕ)
    → RollsBack db (create_record t db tenant w values caller i)
unfolding create_record
create_record-RollsBack t db tenant w values caller i =
    elim (Result-cases (get_owned workspace_table db tenant w)) [
      | inr (e, failing) ↦ rw (create_record, failing) refl
      | inl (found, read) ↦ rw (create_record, read) (persisted-RollsBack db _ _)
    ]

pub update_record-RollsBack :
    {A C : Type 0} (t : AuditedTable A C) (db : FoundationDb) (tenant w : ℕ) (changes : List C)
    (caller : Caller)
    → RollsBack db (update_record t db tenant w changes caller)
unfolding update_record
update_record-RollsBack t db tenant w changes caller =
    elim (Result-cases (get_record t db tenant w)) [
      | inr (e, failing) ↦ rw (update_record, failing) refl
      | inl (found, read) ↦ rw (update_record, read) (persisted-RollsBack db _ _)
    ]

pub update_competitor-RollsBack :
    (db : FoundationDb) (tenant w i : ℕ) (changes : List CompetitorField) (caller : Caller)
    → RollsBack db (update_competitor db tenant w i changes caller)
unfolding update_competitor
update_competitor-RollsBack db tenant w i changes caller =
    elim (Result-cases (get_competitor db tenant w i)) [
      | inr (e, failing) ↦ rw (update_competitor, failing) refl
      | inl (found, read) ↦ rw (update_competitor, read) (persisted-RollsBack db _ _)
    ]

pub create_connector-RollsBack :
    (db : FoundationDb) (tenant w site_id : ℕ) (kind : Text) (i : ℕ)
    → RollsBack db (create_connector db tenant w site_id kind i)
unfolding create_connector
create_connector-RollsBack db tenant w site_id kind i =
    elim (Result-cases (get_owned site_table db tenant site_id)) [
      | inr (e, failing) ↦ rw (create_connector, failing) refl
      | inl (site, read) ↦ elim (Bool-cases (site.workspace_id == w)) [
        | inr elsewhere ↦ rw (create_connector, read, elsewhere) refl
        | inl here ↦ rw (create_connector, read, here) (persisted-RollsBack db _ _)
      ]
    ]
