-- ===== src/Robots/Binding.antt =====
-- growth_os/robots/binding.py: the gate's decision bound to the site and the target that it is about.
pub mod Bound
pub mod Given
pub mod Decides
pub mod Tests
use growth_os.Prelude.{
  ℕ, Bool, true, false, not, ◌&&◌, ◌||◌, Option, none, some, List, [], ◌∷◌, ◌++◌, ◌==◌,
  if◌then◌else◌, Result, ok, err, raise_if, ◌>>=◌, ◌>>◌,
}
use growth_os.Text.{Text, text_eq}
use growth_os.Acquisition.Fetched.{RobotsFetchErrorCode, FetchedRobots}
use growth_os.Acquisition.Transport.{TransportCode, Transport}
use growth_os.Robots.Gate.{GateDecision, GateRaised, is_empty, is_none, evaluate_robots_gate}

pub data BindingErrorCode : Type 0 where
  invalid_input invalid_url disallowed_port cross_origin provenance_mismatch : BindingErrorCode

-- `RobotsBindingError`, or what `evaluate_robots_gate` raised.
pub data BindingRaised : Type 0 where
  binding_error : BindingErrorCode → BindingRaised
  from_gate : GateRaised → BindingRaised

pub record BoundRobotsDecision : Type 0 where
  pub site_url : Text
  pub target_url : Text
  pub target_path : Text
  pub gate_decision : GateDecision

unfoldable pub binding_code : TransportCode → BindingErrorCode
binding_code TransportCode.disallowed_port = disallowed_port
binding_code _ = invalid_url

-- `(fetched_robots is None) == (fetch_error_code is None)`
unfoldable pub is_ambiguous : Option FetchedRobots → Option RobotsFetchErrorCode → Bool
is_ambiguous none none = true
is_ambiguous (some f) (some code) = true
is_ambiguous none (some code) = false
is_ambiguous (some f) none = false

-- An exception of the gate passes through.
abbrev pub lift_gate : {A : Type 0} → Result GateRaised A → Result BindingRaised A
lift_gate (ok a) = ok a
lift_gate (err e) = err (from_gate e)

module _ {Url : Type 0} (net : Transport Url) where
  abbrev pub normalized : Result TransportCode Url → Result BindingRaised Url
  normalized (ok url) = ok url
  normalized (err code) = err (binding_error (binding_code code))

  -- `_normalize`
  unfoldable pub normalize_raw_url : Text → Result BindingRaised Url
  unfolding binding_code
  normalize_raw_url raw_url = normalized (net.normalize_url raw_url)

  unfoldable pub same_origin : Url → Url → Bool
  same_origin site target =
      text_eq (net.scheme site) (net.scheme target)
      && (text_eq (net.host site) (net.host target) && net.port site == net.port target)

  -- The fetched value was requested for another site.
  unfoldable pub is_foreign : Option FetchedRobots → Url → Bool
  is_foreign none site = false
  is_foreign (some f) site = not (text_eq f.requested_site_url (net.str site))

  unfoldable pub target_path_of : Url → Text
  unfolding is_empty
  target_path_of target =
      if is_empty (net.raw_query_string target)
      then net.raw_path target
      else net.raw_path target ++ (0x3F ∷ net.raw_query_string target)

  unfoldable pub evaluate_bound_robots :
      Text
      → Text
      → Option FetchedRobots
      → Option RobotsFetchErrorCode
      → Result BindingRaised BoundRobotsDecision
  unfolding is_empty is_ambiguous normalize_raw_url same_origin is_foreign target_path_of
  evaluate_bound_robots site_url target_url fetched code = do
    raise_if (is_empty site_url || (is_empty target_url || is_ambiguous fetched code))
        (binding_error invalid_input)
    site ← normalize_raw_url site_url
    target ← normalize_raw_url target_url
    raise_if (not (same_origin site target)) (binding_error cross_origin)
    raise_if (is_foreign fetched site) (binding_error provenance_mismatch)
    decision ← lift_gate (evaluate_robots_gate fetched code (target_path_of target))
    ok (record {
      site_url = net.str site;
      target_url = net.str target;
      target_path = target_path_of target;
      gate_decision = decision;
    })
