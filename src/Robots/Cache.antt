-- ===== src/Robots/Cache.antt =====
-- growth_os/robots/cache.py: how long a stored robots.txt may be used.
pub mod Window
use growth_os.Prelude.{
  ℕ, ◌+◌, ◌-◌, ◌*◌, Bool, true, false, Option, none, some, ltb, if◌then◌else◌, Result, ok, err,
}

-- A `datetime`: one whose class is `datetime` and whose zone is `timezone.utc`, as microseconds
-- since the first instant that the type can hold, or any other value.
pub data Datetime : Type 0 where
  utc : ℕ → Datetime
  other : Datetime

-- One more than the last instant of the year 9999.
abbrev pub datetime_end : ℕ
datetime_end = 3652059 * 86400000000

-- `timedelta(hours=24)`
abbrev pub day : ℕ
day = 86400000000

pub data CacheReason : Type 0 where
  missing fresh expired : CacheReason

pub data CacheErrorCode : Type 0 where
  invalid_input : CacheErrorCode

pub record CacheDecision : Type 0 where
  pub reusable : Bool
  pub reason : CacheReason
  pub stored_at : Option ℕ
  pub expires_at : Option ℕ

-- The rest of the function once both instants are canonical.
unfoldable pub evaluate_instants : ℕ → ℕ → Result CacheErrorCode CacheDecision
evaluate_instants stored_at now =
    if ltb now stored_at
    then err invalid_input
    else if ltb (stored_at + day) datetime_end
    then ok (
        if ltb now (stored_at + day)
        then record {
          reusable = true;
          reason = fresh;
          stored_at = some stored_at;
          expires_at = some (stored_at + day);
        }
        else record {
          reusable = false;
          reason = expired;
          stored_at = some stored_at;
          expires_at = some (stored_at + day);
        })
    else err invalid_input

unfoldable pub evaluate_robots_cache :
    Option Datetime → Datetime → Result CacheErrorCode CacheDecision
unfolding evaluate_instants
evaluate_robots_cache stored_at other = err invalid_input
evaluate_robots_cache none (utc now) =
    ok (record { reusable = false; reason = missing; stored_at = none; expires_at = none })
evaluate_robots_cache (some other) (utc now) = err invalid_input
evaluate_robots_cache (some (utc stored_at)) (utc now) = evaluate_instants stored_at now
