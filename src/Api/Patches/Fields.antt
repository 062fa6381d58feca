-- ===== src/Api/Patches/Fields.antt =====
-- The business profile that a `PATCH` of growth_os/api/foundation.py asks for, apart from the
-- `model_dump` of its input.
use growth_os.Prelude.{◌≡◌, refl, sym, ap, ◌∙◌, Option, List, ◌++◌}
use growth_os.Foundation.Tables.{BusinessProfile}
use growth_os.Foundation.Changes.{
  company_name, business_description, products_services, target_audience, positioning, brand_voice,
  set_profile, set_all,
}
use growth_os.Api.Schemas.{Field, unset, supplied, BusinessProfileUpdate}
use growth_os.Api.Dumps.{entry, profile_changes}

-- What a field leaves of a column.
abbrev pub after : {A : Type 0} → Field A → Option A → Option A
after unset old = old
after (supplied v) old = v

-- The row with each supplied field in its own column, and the other columns as they are.
abbrev pub patched_profile : BusinessProfileUpdate → BusinessProfile → BusinessProfile
patched_profile p row = record row {
  company_name = after p.company_name row.company_name;
  business_description = after p.business_description row.business_description;
  products_services = after p.products_services row.products_services;
  target_audience = after p.target_audience row.target_audience;
  positioning = after p.positioning row.positioning;
  brand_voice = after p.brand_voice row.brand_voice;
}

module _ {R C A : Type 0} (set : C → R → R) (make : Option A → C) (old : Option A) where
  -- An entry writes what its field leaves of the column.
  entry-append :
      (f : Field A) (rest : List C) (r : R)
      → set (make old) r ≡ r
      → set_all set (entry make f ++ rest) r ≡ set_all set rest (set (make (after f old)) r)
  unfolding set_all
  entry-append unset rest r same = ap (set_all set rest) (sym same)
  entry-append (supplied v) rest r same = refl

  entry-last :
      (f : Field A) (r : R)
      → set (make old) r ≡ r
      → set_all set (entry make f) r ≡ set (make (after f old)) r
  unfolding set_all
  entry-last unset r same = sym same
  entry-last (supplied v) r same = refl

pub profile_changes-patched_profile :
    (p : BusinessProfileUpdate) (row : BusinessProfile)
    → set_all set_profile (profile_changes p) row ≡ patched_profile p row
unfolding profile_changes
profile_changes-patched_profile p row =
    entry-append set_profile company_name row.company_name p.company_name _ row refl
    ∙ entry-append set_profile business_description row.business_description p.business_description
        _ _ refl
    ∙ entry-append set_profile products_services row.products_services p.products_services _ _ refl
    ∙ entry-append set_profile target_audience row.target_audience p.target_audience _ _ refl
    ∙ entry-append set_profile positioning row.positioning p.positioning _ _ refl
    ∙ entry-last set_profile brand_voice row.brand_voice p.brand_voice _ refl
