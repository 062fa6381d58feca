-- ===== src/Robots/Gate.antt =====
-- growth_os/robots/gate.py: the decision on what fetching a robots.txt led to.
pub mod FailClosed
use growth_os.Prelude.{
  ℕ, Bool, true, false, not, ◌&&◌, ◌||◌, Option, none, some, List, [], ◌∷◌, leb, ◌==◌,
  if◌then◌else◌, Result, ok, err, ◌>>=◌, ◌>>◌, raise_if,
}
use growth_os.Text.{Text, codes, text_eq}
use growth_os.Acquisition.Fetched.{
  RobotsFetchErrorCode, dns_failure, timeout, tls_failure, network_failure, FetchedRobots,
}
use growth_os.Robots.Access.{AccessDecision, AccessRaised, evaluate_robots_access}

pub data GateReason : Type 0 where
  access fetch_unreachable fetch_rejected : GateReason

pub record GateDecision : Type 0 where
  pub allowed : Bool
  pub reason : GateReason
  pub fetched_robots : Option FetchedRobots
  pub access_decision : Option AccessDecision
  pub fetch_error_code : Option RobotsFetchErrorCode

-- `RobotsGateError(INVALID_INPUT)`, or what `evaluate_robots_access` raised.
pub data GateRaised : Type 0 where
  invalid_input : GateRaised
  from_access : AccessRaised → GateRaised

-- `fetch_error_code in _UNREACHABLE`
unfoldable pub is_unreachable : RobotsFetchErrorCode → Bool
is_unreachable dns_failure = true
is_unreachable timeout = true
is_unreachable tls_failure = true
is_unreachable network_failure = true
is_unreachable _ = false

unfoldable pub is_empty : Text → Bool
is_empty [] = true
is_empty (_ ∷ _) = false

unfoldable pub any_empty : List Text → Bool
unfolding is_empty
any_empty [] = false
any_empty (t ∷ ts) = is_empty t || any_empty ts

-- `chain[0] == t`, false if the chain is empty
unfoldable pub is_first : Text → List Text → Bool
is_first t [] = false
is_first t (x ∷ xs) = text_eq t x

-- `chain[-1] == t`, false if the chain is empty
unfoldable pub is_last : Text → List Text → Bool
is_last t [] = false
is_last t (x ∷ []) = text_eq t x
is_last t (x ∷ y ∷ xs) = is_last t (y ∷ xs)

unfoldable pub is_plain : Option Text → Bool
is_plain none = false
is_plain (some t) = text_eq t (codes "text/plain")

unfoldable pub is_none : {A : Type 0} → Option A → Bool
is_none none = true
is_none (some _) = false

-- The content type and the body are as the status demands.
unfoldable pub has_valid_content : FetchedRobots → Bool
unfolding is_plain is_none
has_valid_content value =
    if value.status_code == 200
    then is_plain value.content_type && not (is_none value.body)
    else is_none value.content_type && is_none value.body

-- `_validate_fetched_robots` returns, rather than raises; its tests of types are left out.
unfoldable pub is_valid_fetched : FetchedRobots → Bool
unfolding is_empty any_empty is_first is_last has_valid_content
is_valid_fetched value =
    not (is_empty value.requested_site_url)
    && (not (is_empty value.robots_url)
        && (not (is_empty value.final_url)
            && (not (any_empty value.redirect_chain)
                && (is_first value.robots_url value.redirect_chain
                    && (is_last value.final_url value.redirect_chain
                        && ((leb 100 value.status_code && leb value.status_code 599)
                            && has_valid_content value))))))

-- An exception of `evaluate_robots_access` passes through.
abbrev pub lift : {A : Type 0} → Result AccessRaised A → Result GateRaised A
lift (ok a) = ok a
lift (err e) = err (from_access e)

unfoldable pub fetched_gate : FetchedRobots → Text → Result GateRaised GateDecision
fetched_gate fetched target_path = do
  raise_if (not (is_valid_fetched fetched)) invalid_input
  decision ← lift (evaluate_robots_access (some fetched.status_code) fetched.body target_path)
  ok (record {
    allowed = decision.allowed;
    reason = access;
    fetched_robots = some fetched;
    access_decision = some decision;
    fetch_error_code = none;
  })

-- The two decisions on a fetch that raised.
unfoldable pub failed_decision : RobotsFetchErrorCode → AccessDecision → GateDecision
unfolding is_unreachable
failed_decision code decision =
    if is_unreachable code
    then record {
      allowed = false;
      reason = fetch_unreachable;
      fetched_robots = none;
      access_decision = some decision;
      fetch_error_code = some code;
    }
    else record {
      allowed = false;
      reason = fetch_rejected;
      fetched_robots = none;
      access_decision = none;
      fetch_error_code = some code;
    }

unfoldable pub failed_gate : RobotsFetchErrorCode → Text → Result GateRaised GateDecision
unfolding failed_decision
failed_gate code target_path = do
  decision ← lift (evaluate_robots_access none none target_path)
  ok (failed_decision code decision)

unfoldable pub evaluate_robots_gate :
    Option FetchedRobots → Option RobotsFetchErrorCode → Text → Result GateRaised GateDecision
unfolding fetched_gate failed_gate
evaluate_robots_gate none none target_path = err invalid_input
evaluate_robots_gate (some fetched) (some code) target_path = err invalid_input
evaluate_robots_gate (some fetched) none target_path = fetched_gate fetched target_path
evaluate_robots_gate none (some code) target_path = failed_gate code target_path
