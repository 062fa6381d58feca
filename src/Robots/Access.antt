-- ===== src/Robots/Access.antt =====
-- growth_os/robots/access.py: what the status of a robots.txt response allows.
pub mod FailClosed
use growth_os.Prelude.{
  ℕ, Bool, true, false, not, ◌&&◌, ◌||◌, Option, none, some, [], ltb, leb, ◌==◌, if◌then◌else◌,
  Result, ok, err, ◌>>=◌, ◌>>◌, raise_if,
}
use growth_os.Text.{Text, Bytes}
use growth_os.Robots.Policy.Evaluate.{
  PolicyErrorCode, invalid_input, Raised, policy_error, value_error, Decision, evaluate_robots,
  bool_eq,
}

pub data AccessReason : Type 0 where
  policy unavailable unreachable indeterminate invalid_policy : AccessReason

pub record AccessDecision : Type 0 where
  pub allowed : Bool
  pub reason : AccessReason
  pub status_code : Option ℕ
  pub policy_decision : Option Decision
  pub policy_error_code : Option PolicyErrorCode

-- What `evaluate_robots_access` may raise.
pub data AccessRaised : Type 0 where
  from_policy : Raised → AccessRaised
  assertion_error : AccessRaised

-- `status_code == 200`, also for `None`
unfoldable pub is_200 : Option ℕ → Bool
is_200 none = false
is_200 (some s) = s == 200

unfoldable pub is_present : Option Bytes → Bool
is_present none = false
is_present (some _) = true

-- The test on the arguments that is left besides the one on their types.
unfoldable pub is_bad_input : Option ℕ → Option Bytes → Bool
unfolding is_200 is_present bool_eq
is_bad_input status_code robots_txt =
    elim status_code [ none ↦ false | some s ↦ not (leb 100 s && leb s 599) ]
    || not (bool_eq (is_200 status_code) (is_present robots_txt))

-- The `try` block of the 200 branch, by what `evaluate_robots` did.
unfoldable pub policy_access : Result Raised Decision → Result AccessRaised AccessDecision
policy_access (ok decision) = ok (record {
  allowed = decision.allowed;
  reason = policy;
  status_code = some 200;
  policy_decision = some decision;
  policy_error_code = none;
})
policy_access (err (policy_error invalid_input)) = err (from_policy (policy_error invalid_input))
policy_access (err (policy_error code)) = ok (record {
  allowed = false;
  reason = invalid_policy;
  status_code = some 200;
  policy_decision = none;
  policy_error_code = some code;
})
policy_access (err value_error) = err (from_policy value_error)

abbrev pub status_access : Bool → AccessReason → Option ℕ → AccessDecision
status_access allowed reason status_code = record {
  allowed = allowed;
  reason = reason;
  status_code = status_code;
  policy_decision = none;
  policy_error_code = none;
}

-- The branches by status, once the arguments are known to be good.
unfoldable pub dispatch : Option ℕ → Option Bytes → Text → Result AccessRaised AccessDecision
unfolding policy_access
dispatch none robots_txt target_path = ok (status_access false unreachable none)
dispatch (some s) robots_txt target_path =
    if s == 200
    then elim robots_txt [
      | none ↦ err assertion_error
      | some body ↦ policy_access (evaluate_robots body target_path)
    ]
    else if leb 500 s
    then ok (status_access false unreachable (some s))
    else if leb 400 s
    then ok (status_access true unavailable (some s))
    else ok (status_access false indeterminate (some s))

-- The call of `evaluate_robots` on an empty file, for the test of the target that it makes.
unfoldable pub check_target : Result Raised Decision → Result AccessRaised (Unit {0})
check_target (ok _) = ok tt
check_target (err e) = err (from_policy e)

unfoldable pub evaluate_robots_access :
    Option ℕ → Option Bytes → Text → Result AccessRaised AccessDecision
evaluate_robots_access status_code robots_txt target_path = do
  raise_if (is_bad_input status_code robots_txt) (from_policy (policy_error invalid_input))
  check_target (evaluate_robots [] target_path)
  dispatch status_code robots_txt target_path
