-- ===== src/Connection/Logging.antt =====
-- How many connection errors `SmartConnectionManager` logs.
use blacklist.Prelude.{
  String, ℕ, ◌+◌, ◌≤◌, ◌<◌, ◌≡◌, inl, inr, refl, Option, none, some, List, [], ◌∷◌, arith,
  if◌then◌else◌, Option-cases,
}
use blacklist.Connection.{
  SmartConnectionManager, backoff_duration, max_error_logs, should_suppress, log_connection_error,
  try_hosts,
}

-- Errors one after another, and the lines that are logged.
unfoldable pub log_all : List ℕ → SmartConnectionManager → ℕ × SmartConnectionManager
log_all [] m = (0, m)
log_all (t ∷ ts) m =
    let (logged, m₁) = log_connection_error t m in
    let (n, m₂) = log_all ts m₁ in ((if logged then n + 1 else n), m₂)

-- The times are in the 60 seconds from `start` on.
pub data AreWithin (start : ℕ) : List ℕ → Type 0 where
  no_errors : AreWithin start []
  one_error :
      {t : ℕ} {ts : List ℕ}
      → start ≤ t
      → t < start + backoff_duration
      → AreWithin start ts
      → AreWithin start (t ∷ ts)

-- Once an error of these 60 seconds has been logged, the counter is not reset in them.
log_all_counted :
    (start last : ℕ) (ts : List ℕ) (m : SmartConnectionManager)
    → AreWithin start ts
    → start ≤ last
    → last < start + backoff_duration
    → m.last_error_time ≡ some last
    → m.error_count ≤ max_error_logs
    → (log_all ts m).0 + m.error_count ≤ max_error_logs
unfolding log_all log_connection_error should_suppress
log_all_counted start last [] m no_errors low high e count = omega arith
log_all_counted start last (t ∷ ts) m (one_error from to within) low high e count = ground (
  arith,
  log_all_counted start last ts m within,
  log_all_counted start t ts
      (record m { error_count = m.error_count + 1; last_error_time = some t }) within,
)

-- The counter is at most five, and 0 without an earlier error.
pub record IsValid (m : SmartConnectionManager) : Type 0 where
  pub limited : m.error_count ≤ max_error_logs
  pub counted : m.last_error_time ≡ none → m.error_count ≡ 0

log_connection_error-IsValid :
    (now : ℕ) (m : SmartConnectionManager) → IsValid m → IsValid (log_connection_error now m).1
unfolding log_connection_error should_suppress
log_connection_error-IsValid now m v = elim (Option-cases m.last_error_time) [
  | inl e ↦ record { limited = ground (arith, v.counted e); counted = ground arith }
  | inr (last, e) ↦ record { limited = ground (arith, v.limited); counted = ground arith }
]

-- No attempt to connect, whatever hosts fail, makes the counter exceed its limit.
pub try_hosts-IsValid :
    (connect : String → Option ℕ) (hosts : List String) (m : SmartConnectionManager)
    → IsValid m
    → IsValid (try_hosts connect hosts m).1
unfolding try_hosts
try_hosts-IsValid connect [] m v = v
try_hosts-IsValid connect (host ∷ hosts) m v = elim (Option-cases (connect host)) [
  | inl e ↦ rw (e, try_hosts) (record { limited = omega arith; counted = λ h. refl })
  | inr (t, e) ↦
      rw (e, try_hosts)
        (try_hosts-IsValid connect hosts (log_connection_error t m).1
          (log_connection_error-IsValid t m v))
]

-- From a valid manager, at most five connection errors are logged in any 60 seconds without a
-- success, however many there are.
pub log_all-le-max_error_logs :
    (start : ℕ) (ts : List ℕ) (m : SmartConnectionManager)
    → AreWithin start ts
    → IsValid m
    → (log_all ts m).0 ≤ max_error_logs
unfolding log_all log_connection_error should_suppress
log_all-le-max_error_logs start [] m no_errors v = omega arith
log_all-le-max_error_logs start (t ∷ ts) m (one_error from to within) v =
    elim (Option-cases m.last_error_time) [
      | inl e ↦ ground (
        arith,
        v.counted e,
        log_all_counted start t ts
            (record m { error_count = m.error_count + 1; last_error_time = some t }) within,
      )
      | inr (last, e) ↦ ground (
        arith,
        v.limited,
        log_all-le-max_error_logs start ts m within v,
        log_all_counted start t ts
            (record m { error_count = m.error_count + 1; last_error_time = some t }) within,
        log_all_counted start t ts (record m { error_count = 1; last_error_time = some t }) within,
      )
    ]
