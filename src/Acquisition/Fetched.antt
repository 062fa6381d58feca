-- ===== src/Acquisition/Fetched.antt =====
-- The values that growth_os/acquisition/robots.py returns and raises.
use growth_os.Prelude.{ℕ, Option, List}
use growth_os.Text.{Text, Bytes}

pub data RobotsFetchErrorCode : Type 0 where
  invalid_url disallowed_port dns_failure disallowed_address timeout tls_failure :
      RobotsFetchErrorCode
  network_failure too_many_redirects invalid_redirect : RobotsFetchErrorCode
  unsupported_content_type body_too_large unsupported_charset : RobotsFetchErrorCode

pub record FetchedRobots : Type 0 where
  pub requested_site_url : Text
  pub robots_url : Text
  pub final_url : Text
  pub status_code : ℕ
  pub content_type : Option Text
  pub body : Option Bytes
  pub redirect_chain : List Text
