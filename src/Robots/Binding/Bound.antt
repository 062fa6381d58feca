-- ===== src/Robots/Binding/Bound.antt =====
-- What a decision of growth_os/robots/binding.py is bound to.
use growth_os.Prelude.{
  ℕ, [], ◌∷◌, ◌++◌, ◌≡◌, ◌↔◌, refl, subst, sym, ap, ◌∙◌, ◌⊎◌, inl, inr, true, false, not, ◌||◌,
  ◌==◌, Option, none, some, Result, ok, err, Result-cases, bind_ok, raise_if_ok, ok_injective,
  some_injective, arith,
}
use growth_os.Text.{Text, text_eq}
use growth_os.Text.Equality.{text_eq_sound, text_eq_refl}
use growth_os.Execution.Store.Rows.{and_left, and_right, nat_eq_sound}
use growth_os.Acquisition.Fetched.{RobotsFetchErrorCode, FetchedRobots}
use growth_os.Acquisition.Transport.{Transport}
use growth_os.Robots.Gate.{GateDecision, GateRaised, is_empty, evaluate_robots_gate}
use growth_os.Robots.Binding.Given.{IsGiven, input_sound, input_complete}
use growth_os.Robots.Binding.{
  BoundRobotsDecision, is_ambiguous, lift_gate, normalize_raw_url, same_origin, is_foreign,
  target_path_of, evaluate_bound_robots,
}

empty_cases : (t : Text) → (t ≡ []) ⊎ ((c : ℕ) × ((rest : Text) × (t ≡ c ∷ rest)))
empty_cases [] = inl refl
empty_cases (c ∷ rest) = inr (c, (rest, refl))

nat_eq_complete : {a b : ℕ} → a ≡ b → (a == b) ≡ true
nat_eq_complete e = ground arith

abbrev bound_decision : Text → Text → Text → GateDecision → BoundRobotsDecision
bound_decision site_url target_url target_path gate_decision = record {
  site_url = site_url;
  target_url = target_url;
  target_path = target_path;
  gate_decision = gate_decision;
}

module _ {Url : Type 0} (net : Transport Url) where
  -- A text is the path of a URL, or the path, a question mark and a query that is not empty.
  abbrev IsTarget : Url → Text → Type 0
  IsTarget url text =
      ((net.raw_query_string url ≡ []) × (text ≡ net.raw_path url))
      ⊎ ((c : ℕ) × ((rest : Text) × ((net.raw_query_string url ≡ c ∷ rest)
              × (text ≡ net.raw_path url ++ (0x3F ∷ c ∷ rest)))))

  target_path_of-IsTarget : (url : Url) → IsTarget url (target_path_of net url)
  unfolding target_path_of is_empty
  target_path_of-IsTarget url = elim (empty_cases (net.raw_query_string url)) [
    | inl e ↦ inl (e, rw e)
    | inr (c, (rest, e)) ↦ inr (c, (rest, (e, rw e)))
  ]

  -- A decision is about a site and a target of one origin, and about what was fetched for the site.
  abbrev pub IsBound :
      Text
      → Text
      → Option FetchedRobots
      → Option RobotsFetchErrorCode
      → BoundRobotsDecision
      → Type 0
  IsBound site_url target_url fetched code d =
      (site : Url) × ((target : Url) × ((net.normalize_url site_url ≡ ok site)
          × ((net.normalize_url target_url ≡ ok target)
              × (((net.scheme site ≡ net.scheme target)
                    × ((net.host site ≡ net.host target) × (net.port site ≡ net.port target)))
                  × (((d.site_url ≡ net.str site) × (d.target_url ≡ net.str target))
                      × (((f : FetchedRobots)
                            → fetched ≡ some f
                            → f.requested_site_url ≡ net.str site)
                          × (IsTarget target d.target_path
                              × (evaluate_robots_gate fetched code d.target_path
                                  ≡ ok d.gate_decision))))))))

  normalize_raw_url_ok :
      (raw : Text) (url : Url) → normalize_raw_url net raw ≡ ok url → net.normalize_url raw ≡ ok url
  unfolding normalize_raw_url
  normalize_raw_url_ok raw url h = elim (Result-cases (net.normalize_url raw)) [
    | inl (u, good) ↦ good ∙ ap ok (ok_injective (rw (normalize_raw_url, good) at h))
    | inr (e, bad) ↦ cc (rw (normalize_raw_url, bad) at h)
  ]

  origin_sound :
      (site target : Url)
      → not (same_origin net site target) ≡ false
      → (net.scheme site ≡ net.scheme target)
        × ((net.host site ≡ net.host target) × (net.port site ≡ net.port target))
  unfolding same_origin
  origin_sound site target h =
      let one : same_origin net site target ≡ true = ground arith in
      let rest = and_right (text_eq (net.scheme site) (net.scheme target)) _ one in
      (
        text_eq_sound _ _ (and_left (text_eq (net.scheme site) (net.scheme target)) _ one),
        (
          text_eq_sound _ _ (and_left (text_eq (net.host site) (net.host target)) _ rest),
          nat_eq_sound (and_right (text_eq (net.host site) (net.host target)) _ rest),
        ),
      )

  provenance_sound :
      (fetched : Option FetchedRobots) (site : Url)
      → is_foreign net fetched site ≡ false
      → (f : FetchedRobots) → fetched ≡ some f
      → f.requested_site_url ≡ net.str site
  unfolding is_foreign
  provenance_sound none site h f e = cc
  provenance_sound (some g) site h f e =
      ap (λ x. x.requested_site_url) (sym (some_injective e))
      ∙ text_eq_sound g.requested_site_url (net.str site) (ground arith)

  lift_gate_ok :
      (r : Result GateRaised GateDecision) (d : GateDecision) → lift_gate r ≡ ok d → r ≡ ok d
  lift_gate_ok (ok a) d h = ap ok (ok_injective h)
  lift_gate_ok (err e) d h = cc

  decision_sound :
      (site_url target_url : Text) (fetched : Option FetchedRobots)
      (code : Option RobotsFetchErrorCode) (d : BoundRobotsDecision)
      → evaluate_bound_robots net site_url target_url fetched code ≡ ok d
      → IsGiven site_url target_url fetched code × IsBound site_url target_url fetched code d
  unfolding evaluate_bound_robots
  decision_sound site_url target_url fetched code d h =
      let input =
        raise_if_ok (is_empty site_url || (is_empty target_url || is_ambiguous fetched code)) _ _ d
          h in
      let site = bind_ok (normalize_raw_url net site_url) _ d input.1 in
      let target = bind_ok (normalize_raw_url net target_url) _ d site.1.1 in
      let origin = raise_if_ok (not (same_origin net site.0 target.0)) _ _ d target.1.1 in
      let source = raise_if_ok (is_foreign net fetched site.0) _ _ d origin.1 in
      let gate =
        bind_ok (lift_gate (evaluate_robots_gate fetched code (target_path_of net target.0))) _ d
          source.1 in
      (
        input_sound site_url target_url fetched code input.0,
        (
          site.0,
          (
            target.0,
            (
              normalize_raw_url_ok site_url site.0 site.1.0,
              (
                normalize_raw_url_ok target_url target.0 target.1.0,
                (
                  origin_sound site.0 target.0 origin.0,
                  (
                    (
                      ap (λ x. x.site_url) (sym (ok_injective gate.1.1)),
                      ap (λ x. x.target_url) (sym (ok_injective gate.1.1)),
                    ),
                    (
                      provenance_sound fetched site.0 source.0,
                      (
                        subst (IsTarget target.0) (ap (λ x. x.target_path) (ok_injective gate.1.1))
                            (target_path_of-IsTarget target.0),
                        ap (evaluate_robots_gate fetched code)
                              (ap (λ x. x.target_path) (sym (ok_injective gate.1.1)))
                            ∙ lift_gate_ok
                                (evaluate_robots_gate fetched code (target_path_of net target.0))
                                gate.0 gate.1.0
                            ∙ ap (λ x. ok x.gate_decision) (ok_injective gate.1.1),
                      ),
                    ),
                  ),
                ),
              ),
            ),
          ),
        ),
      )

  IsTarget-target_path_of :
      (url : Url) (text : Text) → IsTarget url text → target_path_of net url ≡ text
  unfolding target_path_of is_empty
  IsTarget-target_path_of url text h = elim h [
    | inl (e, same) ↦ rw e (sym same)
    | inr (c, (rest, (e, same))) ↦ rw e (sym same)
  ]

  provenance_complete :
      (fetched : Option FetchedRobots) (site : Url)
      → ((f : FetchedRobots) → fetched ≡ some f → f.requested_site_url ≡ net.str site)
      → is_foreign net fetched site ≡ false
  unfolding is_foreign
  provenance_complete none site h = refl
  provenance_complete (some g) site h = rw (h g refl, text_eq_refl (net.str site))

  origin_complete :
      (site target : Url)
      → (net.scheme site ≡ net.scheme target)
        × ((net.host site ≡ net.host target) × (net.port site ≡ net.port target))
      → same_origin net site target ≡ true
  unfolding same_origin
  origin_complete site target (scheme, (host, port)) = rw (
    scheme,
    host,
    text_eq_refl (net.scheme target),
    text_eq_refl (net.host target),
    nat_eq_complete port,
  )

  decision_complete :
      (site_url target_url : Text) (fetched : Option FetchedRobots)
      (code : Option RobotsFetchErrorCode) (d : BoundRobotsDecision)
      → IsGiven site_url target_url fetched code
      → IsBound site_url target_url fetched code d
      → evaluate_bound_robots net site_url target_url fetched code ≡ ok d
  unfolding evaluate_bound_robots normalize_raw_url
  decision_complete site_url target_url fetched code d given
        (site, (target, (site_is, (target_is, (origin, (texts, (own, (aimed, decided)))))))) =
      let gate : evaluate_robots_gate fetched code (target_path_of net target)
          ≡ ok d.gate_decision =
        ap (evaluate_robots_gate fetched code) (IsTarget-target_path_of target d.target_path aimed)
        ∙ decided in
      rw
        (
          evaluate_bound_robots,
          input_complete site_url target_url fetched code given,
          site_is,
          target_is,
          origin_complete site target origin,
          provenance_complete fetched site own,
          gate,
        )
        (ap
            (λ x.
              ok (bound_decision x (net.str target) (target_path_of net target) d.gate_decision))
            (sym texts.0)
          ∙ ap (λ x. ok (bound_decision d.site_url x (target_path_of net target) d.gate_decision))
              (sym texts.1)
          ∙ ap (λ x. ok (bound_decision d.site_url d.target_url x d.gate_decision))
              (IsTarget-target_path_of target d.target_path aimed))

  -- For a decision, the binding returns it exactly where the site and the target are given, with
  -- either a fetched file or the code of a failure, both normalise to URLs with one scheme, host and
  -- port, whose texts the decision names, a fetched file is one that was requested for the site, and
  -- the decision is the gate's on the target path that it names: the path of the target alone where
  -- the target has no query, and else its path, a question mark and its query.
  pub evaluate_bound_robots-IsBound :
      (site_url target_url : Text) (fetched : Option FetchedRobots)
      (code : Option RobotsFetchErrorCode) (d : BoundRobotsDecision)
      → (evaluate_bound_robots net site_url target_url fetched code ≡ ok d)
        ↔ (IsGiven site_url target_url fetched code × IsBound site_url target_url fetched code d)
  evaluate_bound_robots-IsBound site_url target_url fetched code d = (
    decision_sound site_url target_url fetched code d,
    λ h. decision_complete site_url target_url fetched code d h.0 h.1,
  )
