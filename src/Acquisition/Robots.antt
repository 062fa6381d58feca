-- ===== src/Acquisition/Robots.antt =====
-- growth_os/acquisition/robots.py: fetching a robots.txt. The regular expressions and the header
-- parser of `_content_type` are a parameter: which error, if any, they raise for the value of the
-- only `Content-Type` header.
pub mod Loop
pub mod Bodies
pub mod Visits
pub mod Valid
use growth_os.Prelude.{
  ℕ, zero, suc, ◌+◌, Bool, true, false, not, ◌&&◌, ◌||◌, Option, none, some, List, [], ◌∷◌, ◌++◌,
  length, leb, ◌==◌, if◌then◌else◌, Result, ok, err, ◌>>=◌,
}
use growth_os.Text.{Text, Bytes, codes}
use growth_os.Acquisition.Fetched.{
  RobotsFetchErrorCode, too_many_redirects, unsupported_content_type, body_too_large, timeout,
  tls_failure, network_failure, FetchedRobots,
}
use growth_os.Acquisition.Transport.{
  map_transport_error, Address, Failure, cancelled, timed_out, tls_error, client_error, os_error,
  HopError, fetch_error, failed, Response, Transport,
}

-- `response.status in _REDIRECT_STATUSES`
unfoldable pub is_redirect : ℕ → Bool
is_redirect s = s == 301 || (s == 302 || (s == 303 || (s == 307 || s == 308)))

-- `str.isspace` of one character.
abbrev pub is_space : ℕ → Bool
is_space c =
    (leb 9 c && leb c 13)
    || ((leb 28 c && leb c 32)
        || (c == 0x85
            || (c == 0xA0
                || (c == 0x1680
                    || ((leb 0x2000 c && leb c 0x200A)
                        || (c == 0x2028
                            || (c == 0x2029 || (c == 0x202F || (c == 0x205F || c == 0x3000)))))))))

-- `not location.strip()`
unfoldable pub is_blank : Text → Bool
is_blank [] = true
is_blank (c ∷ rest) = is_space c && is_blank rest

unfoldable pub sole_location : List Text → Option Text
unfolding is_blank
sole_location (l ∷ []) = if is_blank l then none else some l
sole_location _ = none

-- `_read_body`
unfoldable pub read_body : List Bytes → Option Failure → Bytes → Result HopError Bytes
read_body [] none body = ok body
read_body [] (some failure) body = err (failed failure)
read_body (chunk ∷ chunks) ending body = elim (leb (length body + length chunk) 512000) [
  | true ↦ read_body chunks ending (body ++ chunk)
  | false ↦ err (fetch_error body_too_large)
]

-- `_content_type`
unfoldable pub content_type :
    (Text → Option RobotsFetchErrorCode) → List Text → Result HopError Text
content_type declared_error (value ∷ []) = elim (declared_error value) [
  | none ↦ ok (codes "text/plain")
  | some code ↦ err (fetch_error code)
]
content_type declared_error _ = err (fetch_error unsupported_content_type)

-- What a hop leads to.
pub data Next (Url : Type 0) : Type 0 where
  redirected : Url → Next Url
  finished : Result HopError FetchedRobots → Next Url

-- What the network sees: a connection to the addresses, and its closing in the `finally` block.
pub data Event (Url : Type 0) : Type 0 where
  resolved : Url → List Address → Event Url
  requested : Url → List Address → Event Url
  closed : Url → Event Url

module _ {Url : Type 0} (net : Transport Url)
    (declared_error : Text → Option RobotsFetchErrorCode) where
  unfoldable pub follow : ℕ → Url → List Text → Next Url
  unfolding sole_location
  follow redirect_count current locations =
      if leb 5 redirect_count
      then finished (err (fetch_error too_many_redirects))
      else elim (sole_location locations) [
        | none ↦ finished (err (fetch_error RobotsFetchErrorCode.invalid_redirect))
        | some location ↦ elim (net.normalize_redirect location current) [
          | err code ↦ finished (err (fetch_error (map_transport_error code)))
          | ok next ↦ redirected next
        ]
      ]

  unfoldable pub fetched_body :
      Url → Url → Url → List Text → Response → Result HopError FetchedRobots
  unfolding content_type read_body
  fetched_body site robots_url current chain response = do
    kind ← content_type declared_error response.content_types
    body ← read_body response.chunks response.ending []
    ok (record {
      requested_site_url = net.str site;
      robots_url = net.str robots_url;
      final_url = net.str current;
      status_code = 200;
      content_type = some kind;
      body = some body;
      redirect_chain = chain;
    })

  abbrev pub fetched_status : Url → Url → Url → List Text → ℕ → FetchedRobots
  fetched_status site robots_url current chain status = record {
    requested_site_url = net.str site;
    robots_url = net.str robots_url;
    final_url = net.str current;
    status_code = status;
    content_type = none;
    body = none;
    redirect_chain = chain;
  }

  unfoldable pub after_response : Url → Url → ℕ → Url → List Text → Response → Next Url
  unfolding is_redirect follow fetched_body
  after_response site robots_url redirect_count current chain response =
      if is_redirect response.status
      then follow redirect_count current response.locations
      else if not (response.status == 200)
      then finished (ok (fetched_status site robots_url current chain response.status))
      else finished (fetched_body site robots_url current chain response)

  -- One round of the loop of `_fetch`.
  unfoldable pub hop : Url → Url → ℕ → Url → List Text → Next Url × List (Event Url)
  unfolding after_response
  hop site robots_url redirect_count current chain = elim (net.resolve redirect_count current) [
    | err e ↦ (finished (err e), [])
    | ok addresses ↦ elim (net.request_hop redirect_count current addresses) [
      | err failure ↦ (
        finished (err (failed failure)),
        resolved current addresses ∷ requested current addresses ∷ [],
      )
      | ok response ↦ (
        after_response site robots_url redirect_count current chain response,
        resolved current addresses ∷ requested current addresses ∷ closed current ∷ [],
      )
    ]
  ]

  -- `_fetch` for at most so many rounds, with what the network saw.
  unfoldable pub fetch_rounds :
      ℕ
      → Url
      → Url
      → ℕ
      → Url
      → List Text
      → Option (Result HopError FetchedRobots × List (Event Url))
  unfolding hop
  fetch_rounds zero site robots_url redirect_count current chain = none
  fetch_rounds (suc rounds) site robots_url redirect_count current chain =
      let visited = chain ++ (net.str current ∷ []) in
      let round = hop site robots_url redirect_count current visited in
      elim round.0 [
        | finished r ↦ some (r, round.1)
        | redirected next ↦
            elim (fetch_rounds rounds site robots_url (redirect_count + 1) next visited) [
              | none ↦ none
              | some (r, events) ↦ some (r, round.1 ++ events)
            ]
      ]

  -- Six rounds: the first request and five redirects.
  unfoldable pub fetch : Url → Url → Option (Result HopError FetchedRobots × List (Event Url))
  unfolding fetch_rounds
  fetch site robots_url = fetch_rounds 6 site robots_url 0 robots_url []

-- What leaves `fetch_robots`.
pub data FetchRaised : Type 0 where
  robots_fetch_error : RobotsFetchErrorCode → FetchRaised
  cancelled_error : FetchRaised

-- The handlers of `fetch_robots`.
unfoldable pub handle_error : HopError → FetchRaised
handle_error (fetch_error code) = robots_fetch_error code
handle_error (failed cancelled) = cancelled_error
handle_error (failed timed_out) = robots_fetch_error timeout
handle_error (failed tls_error) = robots_fetch_error tls_failure
handle_error (failed client_error) = robots_fetch_error network_failure
handle_error (failed os_error) = robots_fetch_error network_failure

abbrev pub handled : {A : Type 0} → Result HopError A → Result FetchRaised A
handled (ok a) = ok a
handled (err e) = err (handle_error e)

module _ {Url : Type 0} (net : Transport Url)
    (declared_error : Text → Option RobotsFetchErrorCode) where
  unfoldable pub fetch_robots : Text → Option (Result FetchRaised FetchedRobots)
  unfolding fetch handle_error
  fetch_robots site_url = elim (net.normalize_url site_url) [
    | err code ↦ some (err (robots_fetch_error (map_transport_error code)))
    | ok site ↦ elim (fetch net declared_error site (net.robots_url site)) [
      | none ↦ none
      | some (r, events) ↦ some (handled r)
    ]
  ]
