-- ===== src/Admin.antt =====
-- internal/admin/service.go: the statistics of requests that the server keeps for its operators.
-- The module itself has the types of what the service collects, and what it makes of a route.
pub mod Tables
pub mod Records
pub mod Flush
pub mod Upserts
pub mod Tally
pub mod Ledger
pub mod Collector
pub mod Shows
pub mod Conserved
pub mod Written
pub mod Drain
pub mod Bounds
pub mod Range
pub mod Aggregates
pub mod Reports
pub mod Totals
pub mod Errors
pub mod Overview
mod Tests
use Prim.Native.Char.{code}
use cubesync.Prelude.{
  ℕ, ◌-◌, ◌%◌, String, Bool, true, false, ◌||◌, Option, ◌==◌, if◌then◌else◌, str_eq, ltb, ℤ, pos,
  negsuc,
}
use cubesync.Store.Queries.{to_int32}

-- A request that was answered; the status is of int, the duration is in nanoseconds.
pub record Metric : Type 0 where
  pub method : String
  pub route : String
  pub status : ℤ
  pub duration : ℤ
  pub at : ℕ

pub record ErrorEvent : Type 0 where
  pub user_id : Option ℕ
  pub method : String
  pub route : String
  pub status_code : ℤ
  pub code : String
  pub message : String

-- Go's conversion of an int to int32, for negative numbers too
abbrev pub int32_of : ℤ → ℤ
int32_of (pos n) = to_int32 n
int32_of (negsuc n) = to_int32 (4294967295 - n % 4294967296)

-- strings.HasPrefix
unfoldable pub has_prefix : String → String → Bool
has_prefix s String.[] = true
has_prefix String.[] (String.◌∷◌ d p) = false
has_prefix (String.◌∷◌ c s) (String.◌∷◌ d p) =
    let rest = has_prefix s p in if code c == code d then rest else false

unfoldable pub should_skip_route : String → Bool
unfolding has_prefix
should_skip_route route = has_prefix route "/health/" || has_prefix route "/v1/admin/stats"

-- strings.TrimSpace is a parameter.
unfoldable pub normalize_route : (String → String) → String → String
normalize_route trim_space route =
    if str_eq (trim_space route) "" then "unmatched" else trim_space route

unfoldable pub request_type_for_route : String → String
unfolding has_prefix
request_type_for_route route =
    if has_prefix route "/v1/auth/"
    then "auth"
    else if has_prefix route "/v1/me"
    then "account"
    else if str_eq route "/v1/sync"
    then "sync"
    else if str_eq route "/v1/snapshot"
    then "snapshot"
    else if has_prefix route "/v1/sessions"
    then "sessions"
    else if has_prefix route "/v1/stats"
    then "stats"
    else "other"
