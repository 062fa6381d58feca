-- ===== src/Api/Tests.antt =====
-- The HTTP interface of the foundation on concrete data.
use growth_os.Prelude.{
  ◌≡◌, refl, sym, ap, ◌∙◌, inl, inr, true, false, some, none, List, [], ◌∷◌, Within, ok, err, ◌==◌,
  ◌&&◌,
}
use growth_os.Text.{codes}
use growth_os.Execution.Store.{any, find, Workspace}
use growth_os.Execution.Service.{not_found}
use growth_os.Foundation.Tables.{
  BusinessProfile, Site, FoundationDb, has_workspace, has_tenant, has_length, admits_site,
}
use growth_os.Foundation.Service.{get_owned, workspace_table, site_table}
use growth_os.Foundation.Records.{profile_table, find_record}
use growth_os.Foundation.Records.View.{IsSingular}
use growth_os.Foundation.Records.Refines.{CanAudit}
use growth_os.Foundation.Isolation.{IsKeyed, IsKeyedDb, Leaves}
use growth_os.Foundation.Isolation.Rows.{added-IsKeyed}
use growth_os.Api.Schemas.{
  unset, supplied, BusinessProfileUpdate, SiteUpdate, is_business_profile_update,
  includes_profile_change,
}
use growth_os.Api.Routes.{
  profile_body, site_body, application, Draws, RecordRoute, SiteRoute, Route, Request, Orders,
}
use growth_os.Api.Handlers.{
  caller, tenant_context, handle_route, handle_sites, is_valid, handle, handle_all,
}
use growth_os.Api.Isolation.{sender, IsOwn, IsSorting}
use growth_os.Api.Isolation.Writes.{handle_all-Leaves}
use growth_os.Api.Isolation.Reads.{handle-IsOwn}
use growth_os.Api.Errors.{handle-err}
use growth_os.Api.Patches.{patch_profile_succeeds}
use growth_os.Api.Sites.{patch_found, handle_sites-patch_found}

abbrev profile_row : BusinessProfile
profile_row = record {
  id = 11;
  tenant_id = 1;
  workspace_id = 7;
  company_name = some (codes "Acme");
  business_description = none;
  products_services = none;
  target_audience = none;
  positioning = none;
  brand_voice = none;
}

abbrev site_row : Site
site_row = record {
  id = 20;
  tenant_id = 1;
  workspace_id = 7;
  name = some (codes "Shop");
  url = codes "https://shop.example/";
}

abbrev main_workspace : Workspace
main_workspace = record { id = 7; tenant_id = 1; name = codes "Main" }

abbrev other_workspace : Workspace
other_workspace = record { id = 8; tenant_id = 2; name = codes "Main" }

abbrev db : FoundationDb
db = record {
  tenants = record { id = 1; name = codes "One" } ∷ record { id = 2; name = codes "Two" } ∷ [];
  workspaces = main_workspace ∷ other_workspace ∷ [];
  memberships = [];
  sites = site_row ∷ [];
  connectors = [];
  business_profiles = profile_row ∷ [];
  primary_growth_goals = [];
  autonomy_policies = [];
  competitors = [];
  audits = [];
}

abbrev orders : Orders
orders = record {
  workspaces = λ xs. xs;
  competitors = λ xs. xs;
  memberships = λ xs. xs;
  sites = λ xs. xs;
  connectors = λ xs. xs;
}

orders-IsSorting : IsSorting orders
orders-IsSorting = record {
  workspaces = λ x xs w. w;
  competitors = λ x xs w. w;
  memberships = λ x xs w. w;
  sites = λ x xs w. w;
  connectors = λ x xs w. w;
}

abbrev draws : Draws
draws = record { row_id = 30; audit_id = 90 }

workspaces-IsKeyed : IsKeyed workspace_table db.workspaces
unfolding any
workspaces-IsKeyed =
    added-IsKeyed workspace_table main_workspace (other_workspace ∷ [])
      (added-IsKeyed workspace_table other_workspace [] (λ r s w. absurd w) refl) refl

sites-IsKeyed : IsKeyed site_table db.sites
unfolding any
sites-IsKeyed = added-IsKeyed site_table site_row [] (λ r s w. absurd w) refl

profiles-IsKeyed : IsKeyed profile_table.table db.business_profiles
unfolding any
profiles-IsKeyed = added-IsKeyed profile_table.table profile_row [] (λ r s w. absurd w) refl

db-IsKeyedDb : IsKeyedDb db
db-IsKeyedDb = record {
  workspaces = workspaces-IsKeyed;
  memberships = λ r s w. absurd w;
  sites = sites-IsKeyed;
  connectors = λ r s w. absurd w;
  business_profiles = profiles-IsKeyed;
  primary_growth_goals = λ r s w. absurd w;
  autonomy_policies = λ r s w. absurd w;
  competitors = λ r s w. absurd w;
}

-- A site of the second tenant.
abbrev new_site : Request
new_site = Request.for_tenant 2 2 draws (
    Route.sites (
      SiteRoute.create
        (record { workspace_id = 8; name = codes "Blog"; url = codes "https://blog.example/" })))

-- The second tenant tries to rename the first.
abbrev intrusion : Request
intrusion = Request.for_tenant 1 2 draws (Route.update_tenant (record { name = codes "Mine" }))

abbrev registration : Request
registration = Request.create_tenant (record { name = codes "Three" }) 3

abbrev requests : List Request
requests = new_site ∷ intrusion ∷ registration ∷ []

requests_apart : (r : Request) → Within r requests → (sender r == 1) ≡ false
requests_apart r w = elim w [
  | inl e ↦ ap (λ x. sender x == 1) e
  | inr v ↦ elim v [
    | inl e ↦ ap (λ x. sender x == 1) e
    | inr u ↦ elim u [ inl e ↦ ap (λ x. sender x == 1) e | inr t ↦ absurd t ]
  ]
]

handle_all-Leaves_example : Leaves 1 db (handle_all orders requests db)
handle_all-Leaves_example = handle_all-Leaves orders 1 requests db requests_apart db-IsKeyedDb

site_read :
    (handle orders (Request.for_tenant 1 1 draws (Route.sites (SiteRoute.get 20))) db).0
    ≡ ok (site_body site_row)
unfolding handle tenant_context is_valid handle_route handle_sites get_owned find
site_read = refl

handle-IsOwn_example : IsOwn 1 (site_body site_row)
handle-IsOwn_example =
    handle-IsOwn orders (Request.for_tenant 1 1 draws (Route.sites (SiteRoute.get 20))) db
      (site_body site_row) orders-IsSorting site_read

intrusion_refused : (handle orders intrusion db).0 ≡ err (application not_found)
unfolding handle tenant_context
intrusion_refused = refl

handle-err_example : (handle orders intrusion db).1 ≡ db
handle-err_example = handle-err orders intrusion db (application not_found) intrusion_refused

abbrev voice : BusinessProfileUpdate
voice = record {
  company_name = unset;
  business_description = unset;
  products_services = unset;
  target_audience = unset;
  positioning = supplied none;
  brand_voice = supplied (some (codes "Calm"));
  actor_id = some 5;
}

voice_valid : is_business_profile_update voice ≡ true
unfolding is_business_profile_update includes_profile_change has_length
voice_valid = refl

profiles-IsSingular : IsSingular profile_table db.business_profiles
profiles-IsSingular = record {
  one_row = profiles-IsKeyed;
  one_each = λ r s wr ws e f. elim wr [
    | inl er ↦ elim ws [ inl es ↦ ap (λ x. x.id) er ∙ sym (ap (λ x. x.id) es) | inr ms ↦ absurd ms ]
    | inr mr ↦ absurd mr
  ];
}

can_audit : CanAudit db 1 (caller voice.actor_id draws)
unfolding any has_tenant
can_audit = (refl, refl)

workspace_here : has_workspace db 7 1 ≡ true
unfolding has_workspace any
workspace_here = refl

profile_here : find_record profile_table db 1 7 ≡ some profile_row
unfolding find_record find
profile_here = refl

patch_profile_succeeds_example :
    (handle orders
      (Request.for_tenant 1 1 draws (Route.business_profile 7 (RecordRoute.update voice)))
      db).0
    ≡ ok (
        profile_body (record profile_row { positioning = none; brand_voice = some (codes "Calm") }))
patch_profile_succeeds_example =
    patch_profile_succeeds orders db 1 7 draws voice profile_row voice_valid profiles-IsSingular
      can_audit workspace_here profile_here refl

abbrev no_address : SiteUpdate
no_address = record { name = unset; url = supplied none }

handle_sites-patch_found_example :
    handle_sites orders db 1 draws (SiteRoute.update 20 no_address)
    ≡ patch_found (find (λ s. s.id == 20 && s.tenant_id == 1) db.sites) no_address db
handle_sites-patch_found_example = handle_sites-patch_found orders db 1 draws 20 no_address

-- The stored address of a site whose input cleared it.
address_cleared :
    (handle_sites orders db 1 draws (SiteRoute.update 20 no_address)).0
    ≡ ok (site_body (record site_row { url = codes "None" }))
unfolding find admits_site has_workspace any
address_cleared = ap (λ x. x.0) (handle_sites-patch_found orders db 1 draws 20 no_address)
