-- ===== src/Robots/Binding/Given.antt =====
-- What growth_os/robots/binding.py demands of its arguments before it looks at them.
use growth_os.Prelude.{[], ◌∷◌, ◌≡◌, refl, ◌⊎◌, inl, inr, false, ◌||◌, Option, none, some}
use growth_os.Text.{Text}
use growth_os.Acquisition.Fetched.{RobotsFetchErrorCode, FetchedRobots}
use growth_os.Execution.Service.Reads.{or_false}
use growth_os.Robots.Gate.{is_empty}
use growth_os.Robots.Binding.{is_ambiguous}

-- There are a site and a target, and either a fetched file or the code of a failure.
abbrev pub IsGiven : Text → Text → Option FetchedRobots → Option RobotsFetchErrorCode → Type 0
IsGiven site_url target_url fetched code =
    ((site_url ≡ [] → ⊥) × (target_url ≡ [] → ⊥))
    × (((f : FetchedRobots) × ((fetched ≡ some f) × (code ≡ none)))
        ⊎ ((c : RobotsFetchErrorCode) × ((fetched ≡ none) × (code ≡ some c))))

is_empty_sound : (t : Text) → is_empty t ≡ false → t ≡ [] → ⊥
unfolding is_empty
is_empty_sound [] h e = cc
is_empty_sound (c ∷ t) h e = cc

is_empty_complete : (t : Text) → (t ≡ [] → ⊥) → is_empty t ≡ false
unfolding is_empty
is_empty_complete [] h = absurd (h refl)
is_empty_complete (c ∷ t) h = refl

unambiguous :
    (fetched : Option FetchedRobots) (code : Option RobotsFetchErrorCode)
    → is_ambiguous fetched code ≡ false
    → ((f : FetchedRobots) × ((fetched ≡ some f) × (code ≡ none)))
      ⊎ ((c : RobotsFetchErrorCode) × ((fetched ≡ none) × (code ≡ some c)))
unfolding is_ambiguous
unambiguous none none h = cc
unambiguous (some f) (some c) h = cc
unambiguous none (some c) h = inr (c, (refl, refl))
unambiguous (some f) none h = inl (f, (refl, refl))

pub input_sound :
    (site_url target_url : Text) (fetched : Option FetchedRobots)
    (code : Option RobotsFetchErrorCode)
    → (is_empty site_url || (is_empty target_url || is_ambiguous fetched code)) ≡ false
    → IsGiven site_url target_url fetched code
unfolding is_ambiguous
input_sound site_url target_url fetched code h =
    let first = or_false _ _ h in
    let second = or_false _ _ first.1 in
    (
      (is_empty_sound site_url first.0, is_empty_sound target_url second.0),
      unambiguous fetched code second.1,
    )

pub input_complete :
    (site_url target_url : Text) (fetched : Option FetchedRobots)
    (code : Option RobotsFetchErrorCode)
    → IsGiven site_url target_url fetched code
    → (is_empty site_url || (is_empty target_url || is_ambiguous fetched code)) ≡ false
unfolding is_ambiguous
input_complete site_url target_url fetched code ((site, target), source) =
    rw (is_empty_complete site_url site, is_empty_complete target_url target)
      (elim source [ inl (f, (e, g)) ↦ rw (e, g) | inr (c, (e, g)) ↦ rw (e, g) ])
