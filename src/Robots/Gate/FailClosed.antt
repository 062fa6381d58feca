-- ===== src/Robots/Gate/FailClosed.antt =====
-- When the gate of growth_os/robots/gate.py opens, and what it raises.
use growth_os.Prelude.{
  ◌≡◌, refl, sym, ◌∙◌, ◌⊎◌, inl, inr, true, false, Bool-cases, Result-cases, Option, none, some,
  arith, ok, err,
}
use growth_os.Text.{Text}
use growth_os.Acquisition.Fetched.{RobotsFetchErrorCode, FetchedRobots}
use growth_os.Robots.Policy.Evaluate.{policy_error, invalid_input as invalid_target}
use growth_os.Robots.Access.{AccessDecision, from_policy, evaluate_robots_access}
use growth_os.Robots.Access.FailClosed.{
  NoFile, PolicyAllows, evaluate_robots_access-allowed, evaluate_robots_access-raises,
}
use growth_os.Robots.Gate.{
  GateDecision, GateRaised, invalid_input, from_access, is_valid_fetched, fetched_gate, failed_gate,
  evaluate_robots_gate,
}

fetched_gate-access :
    (fetched : FetchedRobots) (target_path : Text) (decision : GateDecision)
    → fetched_gate fetched target_path ≡ ok decision
    → (is_valid_fetched fetched ≡ true)
      × ((d : AccessDecision) × (evaluate_robots_access
              (some fetched.status_code)
              fetched.body
              target_path
            ≡ ok d)
          × (decision.allowed ≡ d.allowed))
unfolding fetched_gate
fetched_gate-access fetched target_path decision h = elim (Bool-cases (is_valid_fetched fetched)) [
  | inr bad ↦ absurd (ground arith)
  | inl good ↦
      elim (Result-cases
        (evaluate_robots_access (some fetched.status_code) fetched.body target_path)) [
          | inl (d, e) ↦ (good, (d, e, ground arith))
          | inr (x, e) ↦ absurd (ground arith)
        ]
]

failed_gate-allowed :
    (code : RobotsFetchErrorCode) (target_path : Text) (decision : GateDecision)
    → failed_gate code target_path ≡ ok decision
    → decision.allowed ≡ false
unfolding failed_gate
failed_gate-allowed code target_path decision h = ground arith

-- When the gate returns a decision that allows the target, a file was fetched and is consistent,
-- there was no fetch error, and the server reported a client error or the file's policy allows
-- the target.
pub evaluate_robots_gate-allowed :
    (fetched_robots : Option FetchedRobots) (fetch_error_code : Option RobotsFetchErrorCode)
    (target_path : Text) (decision : GateDecision)
    → evaluate_robots_gate fetched_robots fetch_error_code target_path ≡ ok decision
    → decision.allowed ≡ true
    → (fetched : FetchedRobots) × (fetched_robots ≡ some fetched)
      × (fetch_error_code ≡ none)
      × (is_valid_fetched fetched ≡ true)
      × (NoFile (some fetched.status_code)
          ⊎ PolicyAllows (some fetched.status_code) fetched.body target_path)
unfolding evaluate_robots_gate
evaluate_robots_gate-allowed none none target_path decision h a = cc
evaluate_robots_gate-allowed (some fetched) (some code) target_path decision h a = cc
evaluate_robots_gate-allowed none (some code) target_path decision h a =
    cc (failed_gate-allowed code target_path decision h)
evaluate_robots_gate-allowed (some fetched) none target_path decision h a =
    let (valid, (d, e, same)) = fetched_gate-access fetched target_path decision h in
    (
      fetched,
      refl,
      refl,
      valid,
      (evaluate_robots_access-allowed (some fetched.status_code) fetched.body target_path d e).0
          (sym same ∙ a),
    )

-- The exceptions that leave the gate are the ones for invalid input, of the gate or of the policy.
pub evaluate_robots_gate-raises :
    (fetched_robots : Option FetchedRobots) (fetch_error_code : Option RobotsFetchErrorCode)
    (target_path : Text) (e : GateRaised)
    → evaluate_robots_gate fetched_robots fetch_error_code target_path ≡ err e
    → (e ≡ invalid_input) ⊎ (e ≡ from_access (from_policy (policy_error invalid_target)))
unfolding evaluate_robots_gate
evaluate_robots_gate-raises none none target_path e h = inl (ground arith)
evaluate_robots_gate-raises (some fetched) (some code) target_path e h = inl (ground arith)
evaluate_robots_gate-raises none (some code) target_path e h =
    elim (Result-cases (evaluate_robots_access none none target_path)) [
      | inl (d, q) ↦ absurd (ground arith)
      | inr (x, q) ↦ inr (ground (arith, evaluate_robots_access-raises none none target_path x q))
    ]
evaluate_robots_gate-raises (some fetched) none target_path e h =
    elim (Result-cases
      (evaluate_robots_access (some fetched.status_code) fetched.body target_path)) [
        | inl (d, q) ↦ inl (ground arith)
        | inr (x, q) ↦ ground (
          arith,
          evaluate_robots_access-raises (some fetched.status_code) fetched.body target_path x q,
        )
      ]
