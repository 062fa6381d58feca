-- ===== src/Acquisition/Robots/Valid.antt =====
-- What `fetch_robots` of growth_os/acquisition/robots.py returns, and what growth_os/robots/gate.py
-- demands of it.
use growth_os.Prelude.{
  ℕ, zero, suc, ◌+◌, ◌≤◌, ◌≡◌, ◌↔◌, ◌&&◌, refl, sym, ap, ◌∙◌, inl, inr, true, Option, some, List,
  [], ◌∷◌, ◌++◌, length, length-append, leb, ◌==◌, arith, Bool-cases, Option-cases, Result, ok, err,
  Result-cases, subst, some_injective, ok_injective, bind_ok,
}
use growth_os.Text.{Text, codes, text_eq}
use growth_os.Text.Equality.{text_eq_refl}
use growth_os.Acquisition.Fetched.{RobotsFetchErrorCode, FetchedRobots}
use growth_os.Acquisition.Transport.{
  HopError, Response, Transport, IsTransport, map_transport_error,
}
use growth_os.Acquisition.Robots.{
  is_redirect, Next, finished, Event, read_body, content_type, follow, sole_location, fetched_body,
  after_response, hop, fetch_rounds, fetch, FetchRaised, robots_fetch_error, handled, fetch_robots,
}
use growth_os.Acquisition.Robots.Loop.{Next-cases, fetch-Guarded}
use growth_os.Robots.Gate.{
  is_empty, any_empty, is_first, is_last, is_plain, is_none, has_valid_content, is_valid_fetched,
}
use growth_os.Acquisition.Robots.Bodies.{body_length, read_body-length, content_type_plain}
use growth_os.Acquisition.Robots.Visits.{is_last_append, any_empty_append, Visited, is_first_append}

finished_injective :
    {Url : Type 0} {r s : Result HopError FetchedRobots}
    → ◌≡◌ {A = Next Url} (finished r) (finished s)
    → r ≡ s
finished_injective e = cc

-- What a caller may rely on: the gate accepts the value just where its status is from 100 to 599,
-- it is of the site, and it is bounded.
abbrev pub IsReliable : {Url : Type 0} → Transport Url → Url → FetchedRobots → Type 0
IsReliable net site fetched =
    ((is_valid_fetched fetched ≡ true)
      ↔ ((100 ≤ fetched.status_code) × (fetched.status_code ≤ 599)))
    × ((fetched.requested_site_url ≡ net.str site)
        × ((length fetched.redirect_chain ≤ 6) × (body_length fetched.body ≤ 512000)))

-- The test of a status, alone.
in_range :
    (status : ℕ)
    → ((leb 100 status && leb status 599) && true ≡ true) ↔ ((100 ≤ status) × (status ≤ 599))
in_range status = (λ h. ground arith, λ h. ground arith)

module _ {Url : Type 0} (net : Transport Url) (law : IsTransport net)
    (declared_error : Text → Option RobotsFetchErrorCode) (site robots_url : Url) where
  -- What a hop returns at a URL, with the chain up to it.
  IsFetchedAt : Url → List Text → FetchedRobots → Type 0
  IsFetchedAt current chain fetched =
      (fetched.requested_site_url ≡ net.str site)
      × ((fetched.robots_url ≡ net.str robots_url)
          × ((fetched.final_url ≡ net.str current)
              × ((fetched.redirect_chain ≡ chain)
                  × ((has_valid_content fetched ≡ true) × (body_length fetched.body ≤ 512000)))))

  body_fetched :
      (current : Url) (chain : List Text) (response : Response) (fetched : FetchedRobots)
      → fetched_body net declared_error site robots_url current chain response ≡ ok fetched
      → IsFetchedAt current chain fetched
  unfolding fetched_body IsFetchedAt has_valid_content is_plain is_none
  body_fetched current chain response fetched h =
      let kind = bind_ok (content_type declared_error response.content_types) _ fetched h in
      let body = bind_ok (read_body response.chunks response.ending []) _ fetched kind.1.1 in
      let plain = content_type_plain declared_error response.content_types kind.0 kind.1.0 in
      let small =
        read_body-length response.chunks response.ending [] body.0 (omega arith) body.1.0 in
      subst (IsFetchedAt current chain) (ok_injective body.1.1)
        (refl, (refl, (refl, (refl, (rw (ap (λ t. text_eq t (codes "text/plain")) plain), small)))))

  -- A redirect is no result.
  follow-ok :
      (n : ℕ) (current : Url) (locations : List Text) (fetched : FetchedRobots)
      → follow net declared_error n current locations ≡ finished (ok fetched)
      → ⊥
  unfolding follow
  follow-ok n current locations fetched h = elim (Bool-cases (leb 5 n)) [
    | inl over ↦ cc (rw over at h)
    | inr under ↦ elim (Option-cases (sole_location locations)) [
      | inl bad ↦ cc (rw (under, bad) at h)
      | inr (l, sole) ↦ elim (Result-cases (net.normalize_redirect l current)) [
        | inr (e, failing) ↦ cc (rw (under, sole, failing) at h)
        | inl (next, good) ↦ cc (rw (under, sole, good) at h)
      ]
    ]
  ]

  after_response_fetched :
      (n : ℕ) (current : Url) (chain : List Text) (response : Response) (fetched : FetchedRobots)
      → after_response net declared_error site robots_url n current chain response
        ≡ finished (ok fetched)
      → IsFetchedAt current chain fetched
  unfolding after_response IsFetchedAt has_valid_content is_none
  after_response_fetched n current chain response fetched h =
      elim (Bool-cases (is_redirect response.status)) [
        | inl moved ↦
            absurd
              (follow-ok n current response.locations fetched (rw (after_response, moved) at h))
        | inr stays ↦ elim (Bool-cases (response.status == 200)) [
          | inl good ↦
              body_fetched current chain response fetched
                (finished_injective (rw (after_response, stays, good) at h))
          | inr other ↦
              subst (IsFetchedAt current chain)
                (ok_injective (finished_injective (rw (after_response, stays, other) at h)))
                (refl, (refl, (refl, (refl, (rw other, omega arith)))))
        ]
      ]

  hop_fetched :
      (n : ℕ) (current : Url) (chain : List Text) (fetched : FetchedRobots)
      → (hop net declared_error site robots_url n current chain).0 ≡ finished (ok fetched)
      → IsFetchedAt current chain fetched
  unfolding hop
  hop_fetched n current chain fetched h = elim (Result-cases (net.resolve n current)) [
    | inr (e, failing) ↦ cc (rw (hop, failing) at h)
    | inl (addresses, found) ↦ elim (Result-cases (net.request_hop n current addresses)) [
      | inr (e, failing) ↦ cc (rw (hop, found, failing) at h)
      | inl (response, got) ↦
          after_response_fetched n current chain response fetched (rw (hop, found, got) at h)
    ]
  ]

  reliable :
      (n : ℕ) (current : Url) (chain : List Text) (fetched : FetchedRobots)
      → n ≤ 5
      → Visited (net.str robots_url) n chain (net.str current)
      → IsFetchedAt current (chain ++ (net.str current ∷ [])) fetched
      → IsReliable net site fetched
  unfolding is_valid_fetched IsFetchedAt
  reliable n current chain fetched low (full, (long, first))
        (site_is, (robots_is, (final_is, (chain_is, (content, small))))) =
      let t = net.str current in
      let whole = ap any_empty chain_is ∙ any_empty_append t chain full (law.str_given current) in
      let starts =
        ap (λ c. is_first fetched.robots_url c) chain_is
        ∙ ap (λ u. is_first u (chain ++ (t ∷ []))) robots_is
        ∙ first in
      let ends =
        ap (λ c. is_last fetched.final_url c) chain_is
        ∙ ap (λ u. is_last u (chain ++ (t ∷ []))) final_is
        ∙ is_last_append t chain in
      let site_given = ap is_empty site_is ∙ law.str_given site in
      let robots_given = ap is_empty robots_is ∙ law.str_given robots_url in
      let final_given = ap is_empty final_is ∙ law.str_given current in
      let size : length fetched.redirect_chain ≤ 6 =
        subst (λ k. k ≤ 6)
          (sym (ap length chain_is ∙ length-append chain (t ∷ []) ∙ ap (λ k. k + 1) long))
          (omega (arith, low)) in
      (
        rw (site_given, robots_given, final_given, whole, starts, ends, content)
            (in_range fetched.status_code),
        (site_is, (size, small)),
      )

  rounds-IsReliable :
      (rounds n : ℕ) (current : Url) (chain : List Text) (fetched : FetchedRobots)
      (events : List (Event Url))
      → rounds + n ≡ 6
      → Visited (net.str robots_url) n chain (net.str current)
      → fetch_rounds net declared_error rounds site robots_url n current chain
        ≡ some (ok fetched, events)
      → IsReliable net site fetched
  unfolding fetch_rounds
  rounds-IsReliable zero n current chain fetched events enough seen h = cc
  rounds-IsReliable (suc rounds) n current chain fetched events enough seen h =
      let t = net.str current in
      let visited = chain ++ (t ∷ []) in
      let round = hop net declared_error site robots_url n current visited in
      elim (Next-cases round.0) [
        | inr (r, stops) ↦
            let same : r ≡ ok fetched =
              ap (λ x. x.0) (some_injective (rw (fetch_rounds, stops) at h)) in
            reliable n current chain fetched (omega (arith, enough)) seen
              (hop_fetched n current visited fetched (stops ∙ ap finished same))
        | inl (next, goes) ↦
            elim (Option-cases
              (fetch_rounds net declared_error rounds site robots_url (n + 1) next visited)) [
                | inl out ↦ cc (rw (fetch_rounds, goes, out) at h)
                | inr ((r, later), rest) ↦
                    let same : r ≡ ok fetched =
                      ap (λ x. x.0) (some_injective (rw (fetch_rounds, goes, rest) at h)) in
                    rounds-IsReliable rounds (n + 1) next visited fetched later
                      (omega (arith, enough))
                      (
                        any_empty_append t chain seen.0 (law.str_given current),
                        (
                          length-append chain (t ∷ []) ∙ ap (λ k. k + 1) seen.1.0,
                          is_first_append (net.str robots_url) t (net.str next) chain seen.1.1,
                        ),
                      )
                      (rest ∙ ap (λ x. some (x, later)) same)
              ]
      ]

  pub fetch-IsReliable :
      (fetched : FetchedRobots) (events : List (Event Url))
      → fetch net declared_error site robots_url ≡ some (ok fetched, events)
      → IsReliable net site fetched
  unfolding fetch any_empty is_first
  fetch-IsReliable fetched events h =
      rounds-IsReliable 6 0 robots_url [] fetched events refl
        (refl, (refl, text_eq_refl (net.str robots_url))) h

handled_ok :
    (r : Result HopError FetchedRobots) (fetched : FetchedRobots)
    → handled r ≡ ok fetched
    → r ≡ ok fetched
handled_ok (ok a) fetched h = ap ok (ok_injective h)
handled_ok (err e) fetched h = cc

pub fetch_robots-IsReliable :
    {Url : Type 0} (net : Transport Url) (law : IsTransport net)
    (declared_error : Text → Option RobotsFetchErrorCode) (site_url : Text)
    → (r : Result FetchRaised FetchedRobots) × ((fetch_robots net declared_error site_url ≡ some r)
        × ((fetched : FetchedRobots)
            → r ≡ ok fetched
            → (site : Url) × ((net.normalize_url site_url ≡ ok site)
                × IsReliable net site fetched)))
unfolding fetch_robots
fetch_robots-IsReliable net law declared_error site_url =
    elim (Result-cases (net.normalize_url site_url)) [
      | inr (code, failing) ↦ (
        err (robots_fetch_error (map_transport_error code)),
        (rw (fetch_robots, failing), λ f h. cc),
      )
      | inl (site, normal) ↦
          let out = fetch-Guarded net declared_error site (net.robots_url site) in
          (
            handled out.0,
            (
              rw (fetch_robots, normal, out.1.1.0),
              λ fetched h. (
                site,
                (
                  normal,
                  fetch-IsReliable net law declared_error site (net.robots_url site) fetched out.1.0
                      (out.1.1.0 ∙ ap (λ x. some (x, out.1.0)) (handled_ok out.0 fetched h)),
                ),
              ),
            ),
          )
    ]
