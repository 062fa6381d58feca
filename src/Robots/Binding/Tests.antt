-- ===== src/Robots/Binding/Tests.antt =====
-- Fetching a robots.txt over a concrete network and binding a decision to it: the first response is
-- a redirect, the second a file. A URL is a number whose text is one character.
use growth_os.Prelude.{
  ℕ, zero, suc, ◌+◌, ◌≡◌, refl, Option, none, some, [], ◌∷◌, Result, ok, err, true, false,
}
use growth_os.Text.{Text, codes}
use growth_os.Acquisition.Fetched.{RobotsFetchErrorCode, FetchedRobots}
use growth_os.Acquisition.Transport.{TransportCode, inet, Address, Response, Transport, IsTransport}
use growth_os.Acquisition.Robots.{
  is_redirect, sole_location, is_blank, read_body, content_type, follow, fetched_body,
  after_response, hop, fetch_rounds, fetch, fetch_robots,
}
use growth_os.Robots.Gate.{is_empty}
use growth_os.Robots.Binding.{same_origin, evaluate_bound_robots}
use growth_os.Robots.Binding.Decides.{DecidesInRange, fetch_robots-IsDecided}

abbrev pub address : Address
address = record { value = codes "93.184.216.34"; family = inet }

abbrev pub moved : Response
moved = record {
  status = 301;
  locations = (50 ∷ []) ∷ [];
  content_types = [];
  chunks = [];
  ending = none;
}

abbrev pub file : Response
file = record {
  status = 200;
  locations = [];
  content_types = codes "text/plain" ∷ [];
  chunks = codes "User-agent: *" ∷ [];
  ending = none;
}

abbrev pub first_character : Text → Result TransportCode ℕ
first_character [] = err TransportCode.invalid_url
first_character (c ∷ rest) = ok c

abbrev pub response_at : ℕ → Response
response_at zero = moved
response_at (suc n) = file

abbrev pub net : Transport ℕ
net = record {
  normalize_url = first_character;
  normalize_redirect = λ location base. first_character location;
  resolve = λ n url. ok (address ∷ []);
  request_hop = λ n url addresses. ok (response_at n);
  str = λ url. url ∷ [];
  robots_url = λ url. url + 1;
  scheme = λ url. codes "https";
  host = λ url. codes "shop.example";
  port = λ url. 443;
  raw_path = λ url. codes "/";
  raw_query_string = λ url. [];
}

net-IsTransport : IsTransport net
unfolding is_empty
net-IsTransport = record { str_given = λ url. refl }

abbrev declared_error : Text → Option RobotsFetchErrorCode
declared_error value = none

abbrev fetched_file : FetchedRobots
fetched_file = record {
  requested_site_url = 40 ∷ [];
  robots_url = 41 ∷ [];
  final_url = 50 ∷ [];
  status_code = 200;
  content_type = some (codes "text/plain");
  body = some (codes "User-agent: *");
  redirect_chain = (41 ∷ []) ∷ (50 ∷ []) ∷ [];
}

file_fetched : fetch_robots net declared_error (40 ∷ []) ≡ some (ok fetched_file)
unfolding fetch_robots fetch fetch_rounds hop after_response is_redirect follow sole_location
    is_blank fetched_body content_type read_body
file_fetched = refl

given : is_empty (40 ∷ []) ≡ false
unfolding is_empty
given = refl

aimed : is_empty (60 ∷ []) ≡ false
unfolding is_empty
aimed = refl

one_origin : same_origin net 40 60 ≡ true
unfolding same_origin
one_origin = refl

fetch_robots-IsDecided_example :
    DecidesInRange fetched_file
      (evaluate_bound_robots net (40 ∷ []) (60 ∷ []) (some fetched_file) none)
fetch_robots-IsDecided_example =
    fetch_robots-IsDecided net net-IsTransport declared_error (40 ∷ []) (60 ∷ []) 40 60 fetched_file
      given aimed refl refl one_origin file_fetched
