-- ===== src/Connection.antt =====
-- `SmartConnectionManager` of app/core/database/connection_pool_manager.py. Times are
-- milliseconds; `connect` says when an attempt on a host fails, if it does, and a report is
-- without its texts and times.
mod Tests
pub mod Logging
use blacklist.Prelude.{
  ℕ, ◌+◌, ◌-◌, Bool, true, false, ◌&&◌, not, Option, none, some, List, [], ◌∷◌, String, str_eq, leb,
  ltb, if◌then◌else◌,
}

pub record Stats : Type 0 where
  pub tables : ℕ
  pub connections : ℕ
  pub host : String

pub record CachedStats : Type 0 where
  pub data_ : Stats
  pub cached_at : ℕ

pub record SmartConnectionManager : Type 0 where
  pub host : String
  pub last_error_time : Option ℕ
  pub error_count : ℕ
  pub cached_stats : Option CachedStats

abbrev pub cache_timeout : ℕ
cache_timeout = 300_000

abbrev pub backoff_duration : ℕ
backoff_duration = 60_000

abbrev pub max_error_logs : ℕ
max_error_logs = 5

-- `_should_suppress_error_logging`
unfoldable pub should_suppress : ℕ → SmartConnectionManager → Bool × SmartConnectionManager
should_suppress now m = elim m.last_error_time [
  | none ↦ (false, m)
  | some last ↦
      if ltb (now - last) backoff_duration && leb max_error_logs m.error_count
      then (true, m)
      else (false, if leb backoff_duration (now - last) then record m { error_count = 0 } else m)
]

-- `_log_connection_error`: whether a line is logged.
unfoldable pub log_connection_error : ℕ → SmartConnectionManager → Bool × SmartConnectionManager
log_connection_error now m =
    let (suppressed, m₁) = should_suppress now m in
    if suppressed
    then (false, m₁)
    else (true, record m₁ { error_count = m₁.error_count + 1; last_error_time = some now })

unfoldable pub without : String → List String → List String
without host [] = []
without host (h ∷ hosts) = let rest = without host hosts in if str_eq h host then rest else h ∷ rest

-- The loop over the hosts: the first that connects, and the number of lines logged.
unfoldable pub try_hosts :
    (String → Option ℕ)
    → List String
    → SmartConnectionManager
    → Option String × SmartConnectionManager × ℕ
try_hosts connect [] m = (none, m, 0)
try_hosts connect (host ∷ hosts) m = elim (connect host) [
  | none ↦ (some host, record m { error_count = 0; last_error_time = none }, 0)
  | some failed_at ↦
      let (logged, m₁) = log_connection_error failed_at m in
      let (conn, m₂, n) = try_hosts connect hosts m₁ in (conn, m₂, if logged then n + 1 else n)
]

unfoldable pub get_connection :
    (String → Option ℕ)
    → List String
    → SmartConnectionManager
    → Option String × SmartConnectionManager × ℕ
get_connection connect fallback_hosts m =
    try_hosts connect (m.host ∷ without m.host fallback_hosts) m

pub data Report : Type 0 where
  connected degraded_with : Stats → Report
  degraded error : Report

abbrev fallback_report : Option CachedStats → Report
fallback_report none = degraded
fallback_report (some c) = degraded_with c.data_

-- The two queries on an open connection; `none` is an exception.
unfoldable pub query_stats :
    ℕ → String → Option (ℕ × ℕ) → SmartConnectionManager → Report × SmartConnectionManager
query_stats now host none m = (error, m)
query_stats now host (some (tables, connections)) m =
    let stats : Stats = record { tables = tables; connections = connections; host = host } in
    (connected stats, record m { cached_stats = some (record { data_ = stats; cached_at = now }) })

unfoldable pub connect_and_query :
    ℕ
    → (String → Option ℕ)
    → List String
    → Option (ℕ × ℕ)
    → SmartConnectionManager
    → Report × SmartConnectionManager
connect_and_query now connect fallback_hosts answer m =
    let (conn, m₁, n) = get_connection connect fallback_hosts m in
    elim conn [
      | none ↦ (fallback_report m₁.cached_stats, m₁)
      | some host ↦ query_stats now host answer m₁
    ]

-- `get_stats_with_graceful_degradation`
unfoldable pub get_stats :
    ℕ
    → (String → Option ℕ)
    → List String
    → Option (ℕ × ℕ)
    → SmartConnectionManager
    → Report × SmartConnectionManager
get_stats now connect fallback_hosts answer m = elim m.cached_stats [
  | none ↦ connect_and_query now connect fallback_hosts answer m
  | some c ↦
      if ltb (now - c.cached_at) cache_timeout
      then (connected c.data_, m)
      else connect_and_query now connect fallback_hosts answer m
]
