-- ===== src/Robots/Access/FailClosed.antt =====
-- When growth_os/robots/access.py allows access, and what it raises.
use growth_os.Prelude.{
  ℕ, ◌≤◌, ◌<◌, ◌≡◌, ◌≢◌, refl, ap, ◌∙◌, ◌↔◌, ◌⊎◌, inl, inr, true, false, Bool-cases, Option, none,
  some, [], arith, ◌==◌, Result, ok, err, err_injective, ◌>>=◌,
}
use growth_os.Text.{Text, Bytes}
use growth_os.Robots.Policy.Evaluate.{
  invalid_input, Raised, policy_error, value_error, Decision, evaluate_robots,
}
use growth_os.Robots.Policy.Evaluate.Outcomes.{
  evaluate_robots_empty, evaluate_robots-ne-value_error,
}
use growth_os.Robots.Access.{
  AccessDecision, AccessRaised, from_policy, is_bad_input, policy_access, dispatch, check_target,
  evaluate_robots_access,
}

-- The file could be fetched and its policy allows the target.
abbrev pub PolicyAllows : Option ℕ → Option Bytes → Text → Type 0
PolicyAllows status_code robots_txt target_path =
    (body : Bytes) × (decision : Decision) × (status_code ≡ some 200)
    × (robots_txt ≡ some body)
    × (evaluate_robots body target_path ≡ ok decision)
    × (decision.allowed ≡ true)

-- The server answered that there is no such file.
abbrev pub NoFile : Option ℕ → Type 0
NoFile status_code = (s : ℕ) × (status_code ≡ some s) × (400 ≤ s) × (s < 500)

-- What passes the tests before the branches by status is what the branches return.
passes :
    (status_code : Option ℕ) (robots_txt : Option Bytes) (target_path : Text)
    (decision : AccessDecision)
    → evaluate_robots_access status_code robots_txt target_path ≡ ok decision
    → dispatch status_code robots_txt target_path ≡ ok decision
unfolding evaluate_robots_access check_target
passes status_code robots_txt target_path decision h = ground arith

policy_access-allowed :
    (r : Result Raised Decision) (decision : AccessDecision)
    → policy_access r ≡ ok decision
    → decision.allowed ≡ true
    → (d : Decision) × (r ≡ ok d) × (d.allowed ≡ true)
unfolding policy_access
policy_access-allowed (ok d) decision h a = (d, refl, ground arith)
policy_access-allowed (err (policy_error c)) decision h a = absurd (ground arith)
policy_access-allowed (err value_error) decision h a = cc

dispatch-allowed :
    (status_code : Option ℕ) (robots_txt : Option Bytes) (target_path : Text)
    (decision : AccessDecision)
    → dispatch status_code robots_txt target_path ≡ ok decision
    → decision.allowed ≡ true
    → NoFile status_code ⊎ PolicyAllows status_code robots_txt target_path
unfolding dispatch
dispatch-allowed none robots_txt target_path decision h a = absurd (ground arith)
dispatch-allowed (some s) none target_path decision h a = inl (s, refl, ground arith, ground arith)
dispatch-allowed (some s) (some body) target_path decision h a = elim (Bool-cases (s == 200)) [
  | inr other ↦ inl (s, refl, ground arith, ground arith)
  | inl same ↦
      let (d, e, b) =
        policy_access-allowed (evaluate_robots body target_path) decision (rw same at h) a in
      inr (body, d, ground arith, refl, e, b)
]

allowed-dispatch :
    (status_code : Option ℕ) (robots_txt : Option Bytes) (target_path : Text)
    (decision : AccessDecision)
    → dispatch status_code robots_txt target_path ≡ ok decision
    → NoFile status_code ⊎ PolicyAllows status_code robots_txt target_path
    → decision.allowed ≡ true
unfolding dispatch
allowed-dispatch none robots_txt target_path decision h (inl (s, e, lo, hi)) = cc
allowed-dispatch (some t) robots_txt target_path decision h (inl (s, e, lo, hi)) = ground arith
allowed-dispatch status_code robots_txt target_path decision h (inr (body, d, e, f, g, a)) =
    ground arith

-- When there is a decision, it allows access exactly if the status is a client error (400 to 499),
-- or the file came with status 200 and its policy allows the target.
pub evaluate_robots_access-allowed :
    (status_code : Option ℕ) (robots_txt : Option Bytes) (target_path : Text)
    (decision : AccessDecision)
    → evaluate_robots_access status_code robots_txt target_path ≡ ok decision
    → (decision.allowed ≡ true)
      ↔ (NoFile status_code ⊎ PolicyAllows status_code robots_txt target_path)
evaluate_robots_access-allowed status_code robots_txt target_path decision h =
    let d = passes status_code robots_txt target_path decision h in
    (
      dispatch-allowed status_code robots_txt target_path decision d,
      allowed-dispatch status_code robots_txt target_path decision d,
    )

policy_access-raises :
    (r : Result Raised Decision) (e : AccessRaised)
    → r ≢ err value_error
    → policy_access r ≡ err e
    → e ≡ from_policy (policy_error invalid_input)
unfolding policy_access
policy_access-raises (ok d) e n h = cc
policy_access-raises (err (policy_error c)) e n h = ground arith
policy_access-raises (err value_error) e n h = absurd (n refl)

dispatch-raises :
    (status_code : Option ℕ) (robots_txt : Option Bytes) (target_path : Text) (e : AccessRaised)
    → is_bad_input status_code robots_txt ≡ false
    → dispatch status_code robots_txt target_path ≡ err e
    → e ≡ from_policy (policy_error invalid_input)
unfolding dispatch is_bad_input
dispatch-raises none robots_txt target_path e b h = cc
dispatch-raises (some s) none target_path e b h = ground arith
dispatch-raises (some s) (some body) target_path e b h = elim (Bool-cases (s == 200)) [
  | inr other ↦ ground arith
  | inl same ↦
      policy_access-raises (evaluate_robots body target_path) e
        (evaluate_robots-ne-value_error body target_path) (rw same at h)
]

check_target-raises :
    (target_path : Text) (r : Result Raised Decision) (e : AccessRaised)
    → evaluate_robots [] target_path ≡ r
    → check_target r ≡ err e
    → e ≡ from_policy (policy_error invalid_input)
unfolding check_target
check_target-raises target_path (ok d) e q h = cc
check_target-raises target_path (err x) e q h = cc (evaluate_robots_empty target_path x q)

Check-cases :
    (r : Result AccessRaised (Unit {0})) → (r ≡ ok tt) ⊎ ((x : AccessRaised) × (r ≡ err x))
Check-cases (ok tt) = inl refl
Check-cases (err x) = inr (x, refl)

-- The only exception that leaves `evaluate_robots_access` is the one for invalid input: neither
-- the assertion nor the `ValueError` of the normalisation can be raised.
pub evaluate_robots_access-raises :
    (status_code : Option ℕ) (robots_txt : Option Bytes) (target_path : Text) (e : AccessRaised)
    → evaluate_robots_access status_code robots_txt target_path ≡ err e
    → e ≡ from_policy (policy_error invalid_input)
unfolding evaluate_robots_access
evaluate_robots_access-raises status_code robots_txt target_path e h =
    elim (Bool-cases (is_bad_input status_code robots_txt)) [
      | inl bad ↦ ground arith
      | inr good ↦
          go (evaluate_robots [] target_path) refl
            (dispatch-raises status_code robots_txt target_path e good) (rw good at h)
    ]
  where
    go :
        (r : Result Raised Decision)
        → evaluate_robots [] target_path ≡ r
        → (dispatch status_code robots_txt target_path ≡ err e
            → e ≡ from_policy (policy_error invalid_input))
        → (check_target r >>= λ _. dispatch status_code robots_txt target_path) ≡ err e
        → e ≡ from_policy (policy_error invalid_input)
    go r q d w = elim (Check-cases (check_target r)) [
      | inl p ↦ d (rw p at w)
      | inr (x, p) ↦ check_target-raises target_path r e q (p ∙ ap err (err_injective (rw p at w)))
    ]
