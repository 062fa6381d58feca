-- ===== src/Api/Isolation/Reads.antt =====
-- What the answers of growth_os/api/foundation.py show.
use growth_os.Prelude.{ℕ, ◌≡◌, refl, sym, [], ◌∷◌, Result, ok, err, subst}
use growth_os.Foundation.Tables.{FoundationDb}
use growth_os.Foundation.Service.{
  Reply, workspace_table, membership_table, site_table, connector_table, get_tenant, get_owned,
  list_owned, update_owned, create_tenant, update_tenant, create_workspace, create_membership,
  create_site, create_connector,
}
use growth_os.Foundation.{get_onboarding_status}
use growth_os.Foundation.Changes.{WorkspaceField, role, status}
use growth_os.Foundation.Records.{
  profile_table, goal_table, policy_table, competitor_table, create_record, get_record,
  update_record, list_competitors, get_competitor, update_competitor,
}
use growth_os.Api.Dumps.{
  profile_values, profile_changes, goal_values, goal_changes, policy_values, policy_changes,
  competitor_values, competitor_changes, site_changes,
}
use growth_os.Foundation.Isolation.Tables.{
  workspace-IsTable, membership-IsTable, site-IsTable, connector-IsTable, profile-IsTable,
  goal-IsTable, policy-IsTable, competitor-IsTable,
}
use growth_os.Foundation.Isolation.Replies.{
  Returns, get_owned-Returns, get_record-Returns, get_competitor-Returns, get_tenant-Returns,
  list_owned-Returns, list_competitors-Returns, update_owned-Returns, create_record-Returns,
  update_record-Returns, update_competitor-Returns, create_workspace-Returns,
  create_membership-Returns, create_site-Returns, create_connector-Returns, update_tenant-Returns,
  create_tenant-Returns, get_onboarding_status-Returns,
}
use growth_os.Api.Routes.{
  Body, tenant_body, onboarding_body, workspace_body, workspaces_body, profile_body, goal_body,
  policy_body, competitor_body, competitors_body, membership_body, memberships_body, site_body,
  sites_body, connector_body, connectors_body, ApiError, Draws, Request, Orders,
}
use growth_os.Api.Handlers.{caller, answer, page_of, handle}
use growth_os.Api.Isolation.{sender, IsOwn, IsSorting}
use growth_os.Api.Isolation.Cases.{Covers, handle-Covers}

-- A body, if there is one, shows the tenant's rows.
abbrev ShowsOwn : ℕ → Result ApiError Body → Type 0
ShowsOwn tenant (ok body) = IsOwn tenant body
ShowsOwn tenant (err e) = Unit {0}

shows :
    {A : Type 0} (tenant : ℕ) (P : A → Type 0) (body : A → Body) (r : Reply A)
    → ((a : A) → P a → IsOwn tenant (body a))
    → Returns P r.0
    → ShowsOwn tenant (answer body r).0
shows tenant P body (ok a, after) own h = own a h
shows tenant P body (err e, after) own h = tt

covered :
    (orders : Orders) (sorting : IsSorting orders) (db : FoundationDb) (tenant : ℕ) (draws : Draws)
    → Covers orders db tenant draws (λ reply. ShowsOwn tenant reply.0)
unfolding page_of
covered orders sorting db tenant draws = record {
  onboarding = λ w.
      shows tenant _ onboarding_body (((get_onboarding_status db tenant w), db)) (λ a h. h)
        (get_onboarding_status-Returns db tenant w);
  tenant_got =
      shows tenant _ tenant_body (((get_tenant db tenant), db)) (λ a h. h)
        (get_tenant-Returns db tenant);
  tenant_updated = λ payload.
      shows tenant _ tenant_body (update_tenant db tenant payload.name) (λ a h. h)
        (update_tenant-Returns db tenant payload.name);
  profile_created = λ w payload.
      shows tenant _ profile_body
        (create_record profile_table db tenant w (profile_values payload)
          (caller payload.actor_id draws) draws.row_id)
        (λ a h. h)
        (create_record-Returns db tenant profile_table profile-IsTable (λ i a b. refl) w
          (profile_values payload) (caller payload.actor_id draws) draws.row_id);
  profile_got = λ w.
      shows tenant _ profile_body (((get_record profile_table db tenant w), db)) (λ a h. h)
        (get_record-Returns db tenant profile_table w);
  profile_updated = λ w payload.
      shows tenant _ profile_body
        (update_record profile_table db tenant w (profile_changes payload)
          (caller payload.actor_id draws))
        (λ a h. h)
        (update_record-Returns db tenant profile_table profile-IsTable w (profile_changes payload)
          (caller payload.actor_id draws));
  goal_created = λ w payload.
      shows tenant _ goal_body
        (create_record goal_table db tenant w (goal_values payload) (caller payload.actor_id draws)
          draws.row_id)
        (λ a h. h)
        (create_record-Returns db tenant goal_table goal-IsTable (λ i a b. refl) w
          (goal_values payload) (caller payload.actor_id draws) draws.row_id);
  goal_got = λ w.
      shows tenant _ goal_body (((get_record goal_table db tenant w), db)) (λ a h. h)
        (get_record-Returns db tenant goal_table w);
  goal_updated = λ w payload.
      shows tenant _ goal_body
        (update_record goal_table db tenant w (goal_changes payload)
          (caller payload.actor_id draws))
        (λ a h. h)
        (update_record-Returns db tenant goal_table goal-IsTable w (goal_changes payload)
          (caller payload.actor_id draws));
  policy_created = λ w payload.
      shows tenant _ policy_body
        (create_record policy_table db tenant w (policy_values payload)
          (caller payload.actor_id draws) draws.row_id)
        (λ a h. h)
        (create_record-Returns db tenant policy_table policy-IsTable (λ i a b. refl) w
          (policy_values payload) (caller payload.actor_id draws) draws.row_id);
  policy_got = λ w.
      shows tenant _ policy_body (((get_record policy_table db tenant w), db)) (λ a h. h)
        (get_record-Returns db tenant policy_table w);
  policy_updated = λ w payload.
      shows tenant _ policy_body
        (update_record policy_table db tenant w (policy_changes payload)
          (caller payload.actor_id draws))
        (λ a h. h)
        (update_record-Returns db tenant policy_table policy-IsTable w (policy_changes payload)
          (caller payload.actor_id draws));
  competitor_created = λ w payload.
      shows tenant _ competitor_body
        (create_record competitor_table db tenant w (competitor_values payload)
          (caller payload.actor_id draws) draws.row_id)
        (λ a h. h)
        (create_record-Returns db tenant competitor_table competitor-IsTable (λ i a b. refl) w
          (competitor_values payload) (caller payload.actor_id draws) draws.row_id);
  competitors_listed = λ w range.
      shows tenant _ (λ found. competitors_body (page_of range found))
        (((list_competitors orders.competitors db tenant w range.limit range.offset), db))
        (λ a h. h)
        (list_competitors-Returns db tenant orders.competitors w range.limit range.offset
          sorting.competitors);
  competitor_got = λ w i.
      shows tenant _ competitor_body (((get_competitor db tenant w i), db)) (λ a h. h)
        (get_competitor-Returns db tenant w i);
  competitor_updated = λ w i payload.
      shows tenant _ competitor_body
        (update_competitor db tenant w i (competitor_changes payload)
          (caller payload.actor_id draws))
        (λ a h. h)
        (update_competitor-Returns db tenant w i (competitor_changes payload)
          (caller payload.actor_id draws));
  workspace_created = λ payload.
      shows tenant _ workspace_body (create_workspace db tenant payload.name draws.row_id)
        (λ a h. h) (create_workspace-Returns db tenant payload.name draws.row_id);
  workspaces_listed = λ range.
      shows tenant _ (λ found. workspaces_body (page_of range found))
        (((list_owned workspace_table orders.workspaces db tenant range.limit range.offset), db))
        (λ a h. h)
        (list_owned-Returns db tenant workspace_table orders.workspaces range.limit range.offset
          sorting.workspaces);
  workspace_got = λ i.
      shows tenant _ workspace_body (((get_owned workspace_table db tenant i), db)) (λ a h. h)
        (get_owned-Returns db tenant workspace_table i);
  workspace_updated = λ i payload.
      shows tenant _ workspace_body
        (update_owned workspace_table db tenant i (WorkspaceField.name payload.name ∷ []))
        (λ a h. h)
        (update_owned-Returns db tenant workspace_table workspace-IsTable i
          (WorkspaceField.name payload.name ∷ []));
  membership_created = λ payload.
      shows tenant _ membership_body
        (create_membership db tenant payload.workspace_id payload.user_id payload.role draws.row_id)
        (λ a h. h)
        (create_membership-Returns db tenant payload.workspace_id payload.user_id payload.role
          draws.row_id);
  memberships_listed = λ range.
      shows tenant _ (λ found. memberships_body (page_of range found))
        (((list_owned membership_table orders.memberships db tenant range.limit range.offset), db))
        (λ a h. h)
        (list_owned-Returns db tenant membership_table orders.memberships range.limit range.offset
          sorting.memberships);
  membership_got = λ i.
      shows tenant _ membership_body (((get_owned membership_table db tenant i), db)) (λ a h. h)
        (get_owned-Returns db tenant membership_table i);
  membership_updated = λ i payload.
      shows tenant _ membership_body
        (update_owned membership_table db tenant i (role payload.role ∷ [])) (λ a h. h)
        (update_owned-Returns db tenant membership_table membership-IsTable i
          (role payload.role ∷ []));
  site_created = λ payload.
      shows tenant _ site_body
        (create_site db tenant payload.workspace_id payload.name payload.url draws.row_id)
        (λ a h. h)
        (create_site-Returns db tenant payload.workspace_id payload.name payload.url draws.row_id);
  sites_listed = λ range.
      shows tenant _ (λ found. sites_body (page_of range found))
        (((list_owned site_table orders.sites db tenant range.limit range.offset), db)) (λ a h. h)
        (list_owned-Returns db tenant site_table orders.sites range.limit range.offset
          sorting.sites);
  site_got = λ i.
      shows tenant _ site_body (((get_owned site_table db tenant i), db)) (λ a h. h)
        (get_owned-Returns db tenant site_table i);
  site_updated = λ i payload.
      shows tenant _ site_body (update_owned site_table db tenant i (site_changes payload))
        (λ a h. h)
        (update_owned-Returns db tenant site_table site-IsTable i (site_changes payload));
  connector_created = λ payload.
      shows tenant _ connector_body
        (create_connector db tenant payload.workspace_id payload.site_id payload.kind draws.row_id)
        (λ a h. h)
        (create_connector-Returns db tenant payload.workspace_id payload.site_id payload.kind
          draws.row_id);
  connectors_listed = λ range.
      shows tenant _ (λ found. connectors_body (page_of range found))
        (((list_owned connector_table orders.connectors db tenant range.limit range.offset), db))
        (λ a h. h)
        (list_owned-Returns db tenant connector_table orders.connectors range.limit range.offset
          sorting.connectors);
  connector_got = λ i.
      shows tenant _ connector_body (((get_owned connector_table db tenant i), db)) (λ a h. h)
        (get_owned-Returns db tenant connector_table i);
  connector_updated = λ i payload.
      shows tenant _ connector_body
        (update_owned connector_table db tenant i (status payload.status ∷ [])) (λ a h. h)
        (update_owned-Returns db tenant connector_table connector-IsTable i
          (status payload.status ∷ []));
}

handle-ShowsOwn :
    (orders : Orders) (request : Request) (db : FoundationDb)
    → IsSorting orders
    → ShowsOwn (sender request) (handle orders request db).0
handle-ShowsOwn orders request db sorting =
    handle-Covers orders request db (λ reply. ShowsOwn (sender request) reply.0) (λ e. tt)
      (λ payload i own.
        subst (λ n. ShowsOwn n (answer tenant_body (create_tenant db payload.name i)).0) (sym own)
          (shows i _ tenant_body (create_tenant db payload.name i) (λ a h. h)
            (create_tenant-Returns db i payload.name)))
      (λ tenant draws own.
        subst (λ n. Covers orders db tenant draws (λ reply. ShowsOwn n reply.0)) (sym own)
          (covered orders sorting db tenant draws))

-- Where sorting makes up no row, a body that any request is answered with shows rows of the tenant
-- of its header only, or the tenant that it makes.
pub handle-IsOwn :
    (orders : Orders) (request : Request) (db : FoundationDb) (body : Body)
    → IsSorting orders
    → (handle orders request db).0 ≡ ok body
    → IsOwn (sender request) body
handle-IsOwn orders request db body sorting h =
    subst (ShowsOwn (sender request)) h (handle-ShowsOwn orders request db sorting)
