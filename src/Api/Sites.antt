-- ===== src/Api/Sites.antt =====
-- `PATCH` of a site in growth_os/api/foundation.py, against the change that its input asks for.
use growth_os.Prelude.{
  ◌≡◌, ℕ, refl, ◌&&◌, Option, none, some, ◌++◌, map, ◌==◌, true, false, inl, inr, Bool-cases, ok,
  err, Option-cases, Bool,
}
use growth_os.Text.{Text, codes}
use growth_os.Execution.Service.{not_found, conflict}
use growth_os.Execution.Store.{find}
use growth_os.Foundation.Tables.{Site, FoundationDb, admits_site}
use growth_os.Foundation.Changes.{SiteField, set_site, set_all}
use growth_os.Foundation.Service.{
  replace, persisted, update_row, get_owned, update_owned, site_table,
}
use growth_os.Api.Schemas.{Field, unset, supplied, SiteUpdate}
use growth_os.Api.Dumps.{entry, url_entry, site_changes}
use growth_os.Api.Routes.{application, site_body, Draws, SiteRoute, Orders}
use growth_os.Api.Handlers.{Answer, answer, handle_sites}

abbrev name_after : Field Text → Option Text → Option Text
name_after unset old = old
name_after (supplied v) old = v

abbrev url_after : Field Text → Text → Text
url_after unset old = old
url_after (supplied none) old = codes "None"
url_after (supplied (some t)) old = t

-- The site that an input asks for. A supplied `None` for the address is written as its `str`.
abbrev pub patched : SiteUpdate → Site → Site
patched p old = record old { name = name_after p.name old.name; url = url_after p.url old.url }

fields_patched :
    (n u : Field Text) (old : Site)
    → set_all set_site (entry SiteField.name n ++ url_entry u) old
      ≡ record old { name = name_after n old.name; url = url_after u old.url }
unfolding set_all
fields_patched unset unset old = refl
fields_patched unset (supplied none) old = refl
fields_patched unset (supplied (some t)) old = refl
fields_patched (supplied v) unset old = refl
fields_patched (supplied v) (supplied none) old = refl
fields_patched (supplied v) (supplied (some t)) old = refl

site_changes-patched :
    (p : SiteUpdate) (old : Site) → set_all set_site (site_changes p) old ≡ patched p old
unfolding site_changes
site_changes-patched p old = fields_patched p.name p.url old

abbrev patch_stored : Bool → Site → FoundationDb → Answer
patch_stored true site db =
    (ok (site_body site), record db { sites = map (replace site_table site) db.sites })
patch_stored false site db = (err (application conflict), db)

-- The update of the site that the path names.
abbrev pub patch_found : Option Site → SiteUpdate → FoundationDb → Answer
patch_found none p db = (err (application not_found), db)
patch_found (some old) p db = patch_stored (admits_site db (patched p old)) (patched p old) db

stored :
    (db : FoundationDb) (changed site : Site)
    → changed ≡ site
    → answer site_body (persisted db changed (update_row site_table changed db))
      ≡ patch_stored (admits_site db site) site db
unfolding persisted update_row
stored db changed site e =
    rw e (elim (Bool-cases (admits_site db site)) [ inl fits ↦ rw fits | inr refused ↦ rw refused ])

-- `PATCH` of a site is the update of the tenant's site with the identifier of the path, not found
-- where there is none and a conflict where the database refuses the changed row: an absent field
-- keeps its column, a supplied name is written, and a supplied address is written as its `str`,
-- which for `None` is the text `None`.
pub handle_sites-patch_found :
    (orders : Orders) (db : FoundationDb) (tenant : ℕ) (draws : Draws) (i : ℕ)
    (payload : SiteUpdate)
    → handle_sites orders db tenant draws (SiteRoute.update i payload)
      ≡ patch_found (find (λ s. s.id == i && s.tenant_id == tenant) db.sites) payload db
unfolding handle_sites update_owned get_owned
handle_sites-patch_found orders db tenant draws i payload =
    elim (Option-cases (find (λ s. s.id == i && s.tenant_id == tenant) db.sites)) [
      | inl absent ↦ rw (handle_sites, update_owned, get_owned, absent)
      | inr (old, found) ↦
          rw (handle_sites, update_owned, get_owned, found)
            (stored db (set_all set_site (site_changes payload) old) (patched payload old)
              (site_changes-patched payload old))
    ]
