-- ===== src/Acquisition/Transport.antt =====
-- What growth_os/acquisition/_transport.py and the `URL` of yarl give to the fetching of robots.txt
-- and to its binding. The functions are parameters; the number is the hop at which a call is made,
-- since the network answers otherwise from one time to the next.
use growth_os.Prelude.{ℕ, ◌≡◌, false, Option, List, Result}
use growth_os.Text.{Text, Bytes}
use growth_os.Robots.Gate.{is_empty}
use growth_os.Acquisition.Fetched.{RobotsFetchErrorCode}

-- The codes of a `TransportError`.
pub data TransportCode : Type 0 where
  invalid_url disallowed_port dns_failure disallowed_address invalid_redirect : TransportCode

-- `_map_transport_error`
unfoldable pub map_transport_error : TransportCode → RobotsFetchErrorCode
map_transport_error TransportCode.invalid_url = RobotsFetchErrorCode.invalid_url
map_transport_error TransportCode.disallowed_port = RobotsFetchErrorCode.disallowed_port
map_transport_error TransportCode.dns_failure = RobotsFetchErrorCode.dns_failure
map_transport_error TransportCode.disallowed_address = RobotsFetchErrorCode.disallowed_address
map_transport_error TransportCode.invalid_redirect = RobotsFetchErrorCode.invalid_redirect

pub data Family : Type 0 where
  inet inet6 : Family

pub record Address : Type 0 where
  pub value : Text
  pub family : Family

-- What an awaited call raises other than an error of the modelled code.
pub data Failure : Type 0 where
  cancelled timed_out tls_error client_error os_error : Failure

-- What ends a hop.
pub data HopError : Type 0 where
  fetch_error : RobotsFetchErrorCode → HopError
  failed : Failure → HopError

-- A response: the values of its `Location` and `Content-Type` headers, and the chunks of its body
-- with what raises after them.
pub record Response : Type 0 where
  pub status : ℕ
  pub locations : List Text
  pub content_types : List Text
  pub chunks : List Bytes
  pub ending : Option Failure

pub record Transport (Url : Type 0) : Type 0 where
  pub normalize_url : Text → Result TransportCode Url
  pub normalize_redirect : Text → Url → Result TransportCode Url
  pub resolve : ℕ → Url → Result HopError (List Address)
  pub request_hop : ℕ → Url → List Address → Result Failure Response
  pub str : Url → Text
  -- `with_path("/robots.txt").with_query(None)`
  pub robots_url : Url → Url
  pub scheme : Url → Text
  pub host : Url → Text
  pub port : Url → ℕ
  pub raw_path : Url → Text
  pub raw_query_string : Url → Text

-- What the fetching relies on: a URL has a text. The status of a response is any number.
pub record IsTransport {Url : Type 0} (net : Transport Url) : Type 0 where
  pub str_given : (url : Url) → is_empty (net.str url) ≡ false
