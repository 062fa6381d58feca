-- ===== src/Api/Isolation/Writes.antt =====
-- What the requests of one tenant do to the rows of another in growth_os/api/foundation.py.
use growth_os.Prelude.{
  ℕ, ◌≡◌, refl, sym, ap, ◌∙◌, inl, inr, false, List, [], ◌∷◌, ◌==◌, Within, Result, ok, err,
}
use growth_os.Execution.Service.{ServiceError}
use growth_os.Foundation.Tables.{FoundationDb}
use growth_os.Foundation.Changes.{WorkspaceField, role, status}
use growth_os.Foundation.Service.{
  Reply, workspace_table, membership_table, site_table, connector_table,
}
use growth_os.Foundation.Records.{profile_table, goal_table, policy_table, competitor_table}
use growth_os.Foundation.Isolation.{IsKeyedDb, Leaves}
use growth_os.Foundation.Isolation.Rows.{Leaves_trans}
use growth_os.Foundation.Isolation.Tables.{
  workspace-IsTable, membership-IsTable, site-IsTable, connector-IsTable, profile-IsTable,
  goal-IsTable, policy-IsTable, competitor-IsTable,
}
use growth_os.Foundation.Isolation.Calls.{
  update_owned-Leaves, create_workspace-Leaves, create_membership-Leaves, create_site-Leaves,
  create_connector-Leaves, create_record-Leaves, update_record-Leaves, update_competitor-Leaves,
  update_tenant-Leaves, create_tenant-Leaves,
}
use growth_os.Api.Dumps.{site_changes}
use growth_os.Api.Routes.{Body, Draws, Request, Orders}
use growth_os.Api.Handlers.{answer, answer_read, handle, handle_all}
use growth_os.Api.Isolation.{sender}
use growth_os.Api.Isolation.Cases.{Covers, handle-Covers}

module _ (other : ℕ) (db : FoundationDb) (k : IsKeyedDb db) where
  written :
      {A : Type 0} (body : A → Body) (r : Reply A)
      → Leaves other db r.1
      → Leaves other db (answer body r).1
  written body (ok a, after) h = h
  written body (err e, after) h = h

  read :
      {A : Type 0} (body : A → Body) (found : Result ServiceError A)
      → Leaves other db (answer_read body db found).1
  read body (ok a) = (k, refl)
  read body (err e) = (k, refl)

  covered :
      (orders : Orders) (tenant : ℕ) (draws : Draws)
      → (tenant == other) ≡ false
      → Covers orders db tenant draws (λ reply. Leaves other db reply.1)
  covered orders tenant draws apart = record {
    onboarding = λ w. read _ _;
    tenant_got = read _ _;
    tenant_updated =
        λ payload. written _ _ (update_tenant-Leaves other db k tenant apart payload.name);
    profile_created = λ w payload. written _ _ (
        create_record-Leaves other db k tenant apart profile_table profile-IsTable (λ i a b. refl) w
          _ _ _);
    profile_got = λ w. read _ _;
    profile_updated = λ w payload.
        written _ _
          (update_record-Leaves other db k tenant apart profile_table profile-IsTable w _ _);
    goal_created = λ w payload. written _ _ (
        create_record-Leaves other db k tenant apart goal_table goal-IsTable (λ i a b. refl) w _ _
          _);
    goal_got = λ w. read _ _;
    goal_updated = λ w payload.
        written _ _ (update_record-Leaves other db k tenant apart goal_table goal-IsTable w _ _);
    policy_created = λ w payload. written _ _ (
        create_record-Leaves other db k tenant apart policy_table policy-IsTable (λ i a b. refl) w _
          _ _);
    policy_got = λ w. read _ _;
    policy_updated = λ w payload.
        written _ _
          (update_record-Leaves other db k tenant apart policy_table policy-IsTable w _ _);
    competitor_created = λ w payload. written _ _ (
        create_record-Leaves other db k tenant apart competitor_table competitor-IsTable
          (λ i a b. refl) w _ _ _);
    competitors_listed = λ w range. read _ _;
    competitor_got = λ w i. read _ _;
    competitor_updated =
        λ w i payload. written _ _ (update_competitor-Leaves other db k tenant apart w i _ _);
    workspace_created = λ payload.
        written _ _ (create_workspace-Leaves other db k tenant apart payload.name draws.row_id);
    workspaces_listed = λ range. read _ _;
    workspace_got = λ i. read _ _;
    workspace_updated = λ i payload. written _ _ (
        update_owned-Leaves other db k tenant apart workspace_table workspace-IsTable i
          (WorkspaceField.name payload.name ∷ []));
    membership_created = λ payload. written _ _ (
        create_membership-Leaves other db k tenant apart payload.workspace_id payload.user_id
          payload.role draws.row_id);
    memberships_listed = λ range. read _ _;
    membership_got = λ i. read _ _;
    membership_updated = λ i payload. written _ _ (
        update_owned-Leaves other db k tenant apart membership_table membership-IsTable i
          (role payload.role ∷ []));
    site_created = λ payload. written _ _ (
        create_site-Leaves other db k tenant apart payload.workspace_id payload.name payload.url
          draws.row_id);
    sites_listed = λ range. read _ _;
    site_got = λ i. read _ _;
    site_updated = λ i payload. written _ _ (
        update_owned-Leaves other db k tenant apart site_table site-IsTable i
          (site_changes payload));
    connector_created = λ payload. written _ _ (
        create_connector-Leaves other db k tenant apart payload.workspace_id payload.site_id
          payload.kind draws.row_id);
    connectors_listed = λ range. read _ _;
    connector_got = λ i. read _ _;
    connector_updated = λ i payload. written _ _ (
        update_owned-Leaves other db k tenant apart connector_table connector-IsTable i
          (status payload.status ∷ []));
  }

  handle-Leaves :
      (orders : Orders) (request : Request)
      → (sender request == other) ≡ false
      → Leaves other db (handle orders request db).1
  handle-Leaves orders request apart =
      handle-Covers orders request db (λ reply. Leaves other db reply.1) (λ e. (k, refl))
        (λ payload i own.
          written _ _ (
            create_tenant-Leaves other db k i (ap (λ x. x == other) (sym own) ∙ apart)
              payload.name))
        (λ tenant draws own. covered orders tenant draws (ap (λ x. x == other) (sym own) ∙ apart))

-- In a database with primary keys no sequence of requests, each with the header of another tenant
-- or making another tenant, changes, adds or removes a row of the tenant.
pub handle_all-Leaves :
    (orders : Orders) (other : ℕ) (requests : List Request) (db : FoundationDb)
    → ((r : Request) → Within r requests → (sender r == other) ≡ false)
    → IsKeyedDb db
    → Leaves other db (handle_all orders requests db)
unfolding handle_all
handle_all-Leaves orders other [] db apart k = (k, refl)
handle_all-Leaves orders other (r ∷ rs) db apart k =
    let here = handle-Leaves other db k orders r (apart r (inl refl)) in
    Leaves_trans other db (handle orders r db).1 (handle_all orders (r ∷ rs) db) here
      (handle_all-Leaves orders other rs (handle orders r db).1 (λ s w. apart s (inr w)) here.0)
