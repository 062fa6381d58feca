-- ===== src/Api/Errors.antt =====
-- What a request of growth_os/api/foundation.py leaves where it is answered with an error.
use growth_os.Prelude.{ℕ, ◌≡◌, refl, [], ◌∷◌, Result, ok, err}
use growth_os.Execution.Service.{ServiceError}
use growth_os.Foundation.Tables.{FoundationDb}
use growth_os.Foundation.Changes.{WorkspaceField, role, status}
use growth_os.Foundation.Service.{
  Reply, workspace_table, membership_table, site_table, connector_table,
}
use growth_os.Foundation.Service.{create_tenant}
use growth_os.Foundation.Records.{profile_table, goal_table, policy_table, competitor_table}
use growth_os.Foundation.Errors.{
  RollsBack, create_tenant-RollsBack, update_tenant-RollsBack, update_owned-RollsBack,
  create_workspace-RollsBack, create_membership-RollsBack, create_site-RollsBack,
  create_connector-RollsBack, create_record-RollsBack, update_record-RollsBack,
  update_competitor-RollsBack,
}
use growth_os.Api.Dumps.{site_changes}
use growth_os.Api.Routes.{Body, tenant_body, ApiError, Draws, Request, Orders}
use growth_os.Api.Handlers.{answer, answer_read, handle}
use growth_os.Api.Isolation.Cases.{Covers, handle-Covers}

module _ (db : FoundationDb) where
  rolled_back :
      {A : Type 0} (body : A → Body) (r : Reply A) → RollsBack db r → RollsBack db (answer body r)
  rolled_back body (ok a, after) h = tt
  rolled_back body (err e, after) h = h

  read :
      {A : Type 0} (body : A → Body) (found : Result ServiceError A)
      → RollsBack db (answer_read body db found)
  read body (ok a) = tt
  read body (err e) = refl

  covered :
      (orders : Orders) (tenant : ℕ) (draws : Draws) → Covers orders db tenant draws (RollsBack db)
  covered orders tenant draws = record {
    onboarding = λ w. read _ _;
    tenant_got = read _ _;
    tenant_updated = λ payload. rolled_back _ _ (update_tenant-RollsBack db tenant payload.name);
    profile_created =
        λ w payload. rolled_back _ _ (create_record-RollsBack profile_table db tenant w _ _ _);
    profile_got = λ w. read _ _;
    profile_updated =
        λ w payload. rolled_back _ _ (update_record-RollsBack profile_table db tenant w _ _);
    goal_created =
        λ w payload. rolled_back _ _ (create_record-RollsBack goal_table db tenant w _ _ _);
    goal_got = λ w. read _ _;
    goal_updated =
        λ w payload. rolled_back _ _ (update_record-RollsBack goal_table db tenant w _ _);
    policy_created =
        λ w payload. rolled_back _ _ (create_record-RollsBack policy_table db tenant w _ _ _);
    policy_got = λ w. read _ _;
    policy_updated =
        λ w payload. rolled_back _ _ (update_record-RollsBack policy_table db tenant w _ _);
    competitor_created =
        λ w payload. rolled_back _ _ (create_record-RollsBack competitor_table db tenant w _ _ _);
    competitors_listed = λ w range. read _ _;
    competitor_got = λ w i. read _ _;
    competitor_updated =
        λ w i payload. rolled_back _ _ (update_competitor-RollsBack db tenant w i _ _);
    workspace_created =
        λ payload. rolled_back _ _ (create_workspace-RollsBack db tenant payload.name draws.row_id);
    workspaces_listed = λ range. read _ _;
    workspace_got = λ i. read _ _;
    workspace_updated = λ i payload. rolled_back _ _ (
        update_owned-RollsBack workspace_table db tenant i (WorkspaceField.name payload.name ∷ []));
    membership_created = λ payload. rolled_back _ _ (
        create_membership-RollsBack db tenant payload.workspace_id payload.user_id payload.role
          draws.row_id);
    memberships_listed = λ range. read _ _;
    membership_got = λ i. read _ _;
    membership_updated = λ i payload.
        rolled_back _ _
          (update_owned-RollsBack membership_table db tenant i (role payload.role ∷ []));
    site_created = λ payload. rolled_back _ _ (
        create_site-RollsBack db tenant payload.workspace_id payload.name payload.url draws.row_id);
    sites_listed = λ range. read _ _;
    site_got = λ i. read _ _;
    site_updated = λ i payload.
        rolled_back _ _ (update_owned-RollsBack site_table db tenant i (site_changes payload));
    connector_created = λ payload. rolled_back _ _ (
        create_connector-RollsBack db tenant payload.workspace_id payload.site_id payload.kind
          draws.row_id);
    connectors_listed = λ range. read _ _;
    connector_got = λ i. read _ _;
    connector_updated = λ i payload.
        rolled_back _ _
          (update_owned-RollsBack connector_table db tenant i (status payload.status ∷ []));
  }

error_state :
    {A : Type 0} (db : FoundationDb) (e : ApiError) (r : Result ApiError A × FoundationDb)
    → RollsBack db r
    → r.0 ≡ err e
    → r.1 ≡ db
error_state db e (ok a, after) h raised = cc
error_state db e (err x, after) h raised = h

-- A request that is answered with an error leaves the database as it was, rows and audit events.
pub handle-err :
    (orders : Orders) (request : Request) (db : FoundationDb) (e : ApiError)
    → (handle orders request db).0 ≡ err e
    → (handle orders request db).1 ≡ db
handle-err orders request db e raised =
    error_state db e (handle orders request db)
      (handle-Covers orders request db (RollsBack db) (λ e. refl)
        (λ payload i own.
          rolled_back db tenant_body (create_tenant db payload.name i)
            (create_tenant-RollsBack db payload.name i))
        (λ tenant draws own. covered db orders tenant draws))
      raised
