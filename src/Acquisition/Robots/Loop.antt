-- ===== src/Acquisition/Robots/Loop.antt =====
-- The loop of `_fetch` in growth_os/acquisition/robots.py: that it ends, and what the network sees.
use growth_os.Prelude.{
  ℕ, zero, suc, ◌+◌, ◌≤◌, ◌≡◌, refl, ap, ◌⊎◌, inl, inr, false, Option, some, List, [], ◌∷◌, ◌++◌,
  leb, ◌==◌, arith, Bool-cases, Option-cases, Result, ok, Result-cases, subst, some_injective,
}
use growth_os.Text.{Text}
use growth_os.Acquisition.Fetched.{RobotsFetchErrorCode, FetchedRobots}
use growth_os.Acquisition.Transport.{Address, HopError, Response, Transport}
use growth_os.Acquisition.Robots.{
  is_redirect, Next, redirected, finished, Event, resolved, requested, closed, follow,
  after_response, hop, fetch_rounds, fetch,
}

pub Next-cases :
    {Url : Type 0} (n : Next Url)
    → ((next : Url) × (n ≡ redirected next))
      ⊎ ((r : Result HopError FetchedRobots) × (n ≡ finished r))
Next-cases (redirected next) = inl (next, refl)
Next-cases (finished r) = inr (r, refl)

module _ {Url : Type 0} (net : Transport Url) where
  -- What the network may see from a hop on: no connection, a connection that fails and ends it, or
  -- one that is closed before the next hop; each goes to the addresses that `resolve` has admitted
  -- for its URL at its hop.
  pub data Guarded : ℕ → List (Event Url) → Type 0 where
    quiet : {n : ℕ} → Guarded n []
    broken :
        {n : ℕ} (url : Url) (addresses : List Address)
        → net.resolve n url ≡ ok addresses
        → Guarded n (resolved url addresses ∷ requested url addresses ∷ [])
    connected :
        {n : ℕ} (url : Url) (addresses : List Address) (rest : List (Event Url))
        → net.resolve n url ≡ ok addresses
        → Guarded (n + 1) rest
        → Guarded n (resolved url addresses ∷ requested url addresses ∷ closed url ∷ rest)

  module _ (declared_error : Text → Option RobotsFetchErrorCode) (site robots_url : Url) where
    -- A redirect is followed only below the bound.
    follow_bound :
        (n : ℕ) (current next : Url) (locations : List Text)
        → follow net declared_error n current locations ≡ redirected next
        → leb 5 n ≡ false
    unfolding follow
    follow_bound n current next locations h = elim (Bool-cases (leb 5 n)) [
      | inl over ↦ cc (rw over at h)
      | inr under ↦ under
    ]

    after_response_bound :
        (n : ℕ) (current next : Url) (chain : List Text) (response : Response)
        → after_response net declared_error site robots_url n current chain response
          ≡ redirected next
        → leb 5 n ≡ false
    unfolding after_response
    after_response_bound n current next chain response h =
        elim (Bool-cases (is_redirect response.status)) [
          | inl moved ↦ follow_bound n current next response.locations (rw moved at h)
          | inr stays ↦ elim (Bool-cases (response.status == 200)) [
            | inl good ↦ cc (rw (stays, good) at h)
            | inr other ↦ cc (rw (stays, other) at h)
          ]
        ]

    hop_bound :
        (n : ℕ) (current next : Url) (chain : List Text)
        → (hop net declared_error site robots_url n current chain).0 ≡ redirected next
        → leb 5 n ≡ false
    unfolding hop
    hop_bound n current next chain h = elim (Result-cases (net.resolve n current)) [
      | inr (e, failing) ↦ cc (rw (hop, failing) at h)
      | inl (addresses, found) ↦ elim (Result-cases (net.request_hop n current addresses)) [
        | inr (e, failing) ↦ cc (rw (hop, found, failing) at h)
        | inl (response, got) ↦
            after_response_bound n current next chain response (rw (hop, found, got) at h)
      ]
    ]

    -- With a round for each redirect that is left and one more, the loop ends.
    fetch_rounds_end :
        (rounds n : ℕ) (current : Url) (chain : List Text)
        → n ≤ 5
        → rounds + n ≡ 6
        → (out : _) × (fetch_rounds net declared_error rounds site robots_url n current chain
            ≡ some out)
    unfolding fetch_rounds
    fetch_rounds_end zero n current chain low enough = absurd (ground arith)
    fetch_rounds_end (suc rounds) n current chain low enough =
        let visited = chain ++ (net.str current ∷ []) in
        let round = hop net declared_error site robots_url n current visited in
        elim (Next-cases round.0) [
          | inr (r, stops) ↦ rw (fetch_rounds, stops) ((r, round.1), refl)
          | inl (next, goes) ↦
              let under = hop_bound n current next visited goes in
              let rest =
                fetch_rounds_end rounds (n + 1) next visited (ground arith)
                  (omega (arith, enough)) in
              rw (fetch_rounds, goes, rest.1) ((rest.0.0, round.1 ++ rest.0.1), refl)
        ]

    hop_events :
        (n : ℕ) (current : Url) (chain : List Text)
        → ((r : Result HopError FetchedRobots)
            → (hop net declared_error site robots_url n current chain).0 ≡ finished r
            → Guarded n (hop net declared_error site robots_url n current chain).1)
          × ((next : Url) (rest : List (Event Url))
              → (hop net declared_error site robots_url n current chain).0 ≡ redirected next
              → Guarded (n + 1) rest
              → Guarded n ((hop net declared_error site robots_url n current chain).1 ++ rest))
    unfolding hop
    hop_events n current chain = elim (Result-cases (net.resolve n current)) [
      | inr (e, failing) ↦ rw (hop, failing) (λ r h. quiet, λ next rest h g. cc)
      | inl (addresses, found) ↦ elim (Result-cases (net.request_hop n current addresses)) [
        | inr (e, failing) ↦
            rw (hop, found, failing) (λ r h. broken current addresses found, λ next rest h g. cc)
        | inl (response, got) ↦
            rw (hop, found, got)
              (
                λ r h. connected current addresses [] found quiet,
                λ next rest h g. connected current addresses rest found g,
              )
      ]
    ]

    fetch_rounds-Guarded :
        (rounds n : ℕ) (current : Url) (chain : List Text) (r : Result HopError FetchedRobots)
        (events : List (Event Url))
        → fetch_rounds net declared_error rounds site robots_url n current chain ≡ some (r, events)
        → Guarded n events
    unfolding fetch_rounds
    fetch_rounds-Guarded zero n current chain r events h = cc
    fetch_rounds-Guarded (suc rounds) n current chain r events h =
        let visited = chain ++ (net.str current ∷ []) in
        let round = hop net declared_error site robots_url n current visited in
        let seen = hop_events n current visited in
        elim (Next-cases round.0) [
          | inr (r', stops) ↦
              let same : round.1 ≡ events =
                ap (λ x. x.1) (some_injective (rw (fetch_rounds, stops) at h)) in
              subst (Guarded n) same (seen.0 r' stops)
          | inl (next, goes) ↦
              elim (Option-cases
                (fetch_rounds net declared_error rounds site robots_url (n + 1) next visited)) [
                  | inl out ↦ cc (rw (fetch_rounds, goes, out) at h)
                  | inr ((r', later), rest) ↦
                      let same : round.1 ++ later ≡ events =
                        ap (λ x. x.1) (some_injective (rw (fetch_rounds, goes, rest) at h)) in
                      subst (Guarded n) same (
                        seen.1 next later goes
                          (fetch_rounds-Guarded rounds (n + 1) next visited r' later rest))
                ]
        ]

pub fetch-Guarded :
    {Url : Type 0} (net : Transport Url) (declared_error : Text → Option RobotsFetchErrorCode)
    (site robots_url : Url)
    → (r : Result HopError FetchedRobots) × ((events : List (Event Url)) × ((fetch net
              declared_error site robots_url
            ≡ some (r, events))
          × Guarded net 0 events))
unfolding fetch
fetch-Guarded net declared_error site robots_url =
    let out =
      fetch_rounds_end net declared_error site robots_url 6 0 robots_url [] (omega arith) refl in
    (
      out.0.0,
      (
        out.0.1,
        (
          out.1,
          fetch_rounds-Guarded net declared_error site robots_url 6 0 robots_url [] out.0.0 out.0.1
              out.1,
        ),
      ),
    )
