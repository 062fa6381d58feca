-- ===== src/Robots/Binding/Decides.antt =====
-- That growth_os/robots/binding.py decides on what growth_os/acquisition/robots.py fetches.
use growth_os.Prelude.{
  ℕ, ◌≤◌, ◌<◌, leb, Bool-cases, ◌≡◌, sym, ap, ◌∙◌, ◌⊎◌, inl, inr, true, false, Option, none, some,
  Result, ok, err, Result-cases, ok_injective, some_injective, arith,
}
use growth_os.Text.{Text, text_eq}
use growth_os.Text.Equality.{text_eq_refl}
use growth_os.Acquisition.Fetched.{RobotsFetchErrorCode, FetchedRobots}
use growth_os.Acquisition.Transport.{Transport, IsTransport}
use growth_os.Acquisition.Robots.{fetch_robots}
use growth_os.Acquisition.Robots.Valid.{fetch_robots-IsReliable}
use growth_os.Robots.Access.{AccessRaised, evaluate_robots_access}
use growth_os.Robots.Gate.{
  GateDecision, GateRaised, invalid_input, from_access, is_empty, is_valid_fetched, fetched_gate,
  evaluate_robots_gate,
}
use growth_os.Robots.Binding.{
  BindingRaised, from_gate, BoundRobotsDecision, is_ambiguous, normalize_raw_url, same_origin,
  is_foreign, target_path_of, evaluate_bound_robots,
}

-- A decision, or an error of the policy.
abbrev pub IsDecided : Result BindingRaised BoundRobotsDecision → Type 0
IsDecided r =
    ((d : BoundRobotsDecision) × (r ≡ ok d))
    ⊎ ((a : AccessRaised) × (r ≡ err (from_gate (from_access a))))

-- With a status from 100 to 599 the binding decides; any other one is the gate's invalid input.
abbrev pub DecidesInRange : FetchedRobots → Result BindingRaised BoundRobotsDecision → Type 0
DecidesInRange fetched r =
    (((100 ≤ fetched.status_code) × (fetched.status_code ≤ 599)) × IsDecided r)
    ⊎ (((fetched.status_code < 100) ⊎ (599 < fetched.status_code))
        × (r ≡ err (from_gate GateRaised.invalid_input)))

range_cases : (n : ℕ) → ((100 ≤ n) × (n ≤ 599)) ⊎ ((n < 100) ⊎ (599 < n))
range_cases n = elim (Bool-cases (leb 100 n)) [
  | inr low ↦ inr (inl (ground arith))
  | inl from ↦ elim (Bool-cases (leb n 599)) [
    | inl to ↦ inl (ground arith, ground arith)
    | inr high ↦ inr (inr (ground arith))
  ]
]

out_of_range : (n : ℕ) → (n < 100) ⊎ (599 < n) → (100 ≤ n) × (n ≤ 599) → ⊥
out_of_range n out (from, to) = elim out [ inl low ↦ omega arith | inr high ↦ omega arith ]

gate_refused :
    (fetched : FetchedRobots) (path : Text)
    → is_valid_fetched fetched ≡ false
    → evaluate_robots_gate (some fetched) none path ≡ err GateRaised.invalid_input
unfolding evaluate_robots_gate fetched_gate
gate_refused fetched path bad = rw (fetched_gate, bad)

gate_valid :
    (fetched : FetchedRobots) (path : Text)
    → is_valid_fetched fetched ≡ true
    → evaluate_robots_gate (some fetched) none path ≡ err invalid_input
    → ⊥
unfolding evaluate_robots_gate fetched_gate
gate_valid fetched path valid h =
    elim (Result-cases (evaluate_robots_access (some fetched.status_code) fetched.body path)) [
      | inl (d, access) ↦ cc (rw (fetched_gate, valid, access) at h)
      | inr (a, refused) ↦ cc (rw (fetched_gate, valid, refused) at h)
    ]

gate_decided :
    (fetched : FetchedRobots) (path : Text)
    → is_valid_fetched fetched ≡ true
    → ((d : GateDecision) × (evaluate_robots_gate (some fetched) none path ≡ ok d))
      ⊎ ((a : AccessRaised) × (evaluate_robots_gate (some fetched) none path ≡ err (from_access a)))
gate_decided fetched path valid =
    elim (Result-cases (evaluate_robots_gate (some fetched) none path)) [
      | inl decided ↦ inl decided
      | inr (GateRaised.invalid_input, h) ↦ absurd (gate_valid fetched path valid h)
      | inr (from_access a, h) ↦ inr (a, h)
    ]

-- What `fetch_robots` returns for a site is never taken for another site's: with a target of the
-- same origin and a status from 100 to 599 the binding decides, or an error of the policy leaves it,
-- and with any other status it raises the gate's invalid input.
pub fetch_robots-IsDecided :
    {Url : Type 0} (net : Transport Url) (law : IsTransport net)
    (declared_error : Text → Option RobotsFetchErrorCode) (site_url target_url : Text)
    (site target : Url) (fetched : FetchedRobots)
    → is_empty site_url ≡ false
    → is_empty target_url ≡ false
    → net.normalize_url site_url ≡ ok site
    → net.normalize_url target_url ≡ ok target
    → same_origin net site target ≡ true
    → fetch_robots net declared_error site_url ≡ some (ok fetched)
    → DecidesInRange fetched (evaluate_bound_robots net site_url target_url (some fetched) none)
unfolding evaluate_bound_robots normalize_raw_url is_ambiguous is_foreign
fetch_robots-IsDecided net law declared_error site_url target_url site target fetched given aimed
      site_is target_is one done =
    let out = fetch_robots-IsReliable net law declared_error site_url in
    let rely = out.1.1 fetched (some_injective (sym out.1.0 ∙ done)) in
    let same : rely.0 ≡ site = ok_injective (sym rely.1.0 ∙ site_is) in
    let own : text_eq fetched.requested_site_url (net.str site) ≡ true =
      ap (λ t. text_eq t (net.str site)) (rely.1.1.1.0 ∙ ap (λ u. net.str u) same)
      ∙ text_eq_refl (net.str site) in
    elim (range_cases fetched.status_code) [
      | inr out_of ↦
          let bad : is_valid_fetched fetched ≡ false =
            elim (Bool-cases (is_valid_fetched fetched)) [
              | inl valid ↦ absurd (out_of_range _ out_of (rely.1.1.0.0 valid))
              | inr bad ↦ bad
            ] in
          let refused = gate_refused fetched (target_path_of net target) bad in
          inr (
            out_of,
            rw (evaluate_bound_robots, given, aimed, site_is, target_is, one, own, refused),
          )
      | inl range ↦ elim (gate_decided fetched (target_path_of net target) (rely.1.1.0.1 range)) [
        | inl (d, decided) ↦
            let answer : BoundRobotsDecision = record {
              site_url = net.str site;
              target_url = net.str target;
              target_path = target_path_of net target;
              gate_decision = d;
            } in
            inl (
              range,
              inl (
                answer,
                rw (evaluate_bound_robots, given, aimed, site_is, target_is, one, own, decided),
              ),
            )
        | inr (a, refused) ↦ inl (
          range,
          inr (a, rw (evaluate_bound_robots, given, aimed, site_is, target_is, one, own, refused)),
        )
      ]
    ]
