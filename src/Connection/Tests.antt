-- ===== src/Connection/Tests.antt =====
-- Six connection errors within three seconds.
use blacklist.Prelude.{ℕ, ◌≤◌, refl, none, List, [], ◌∷◌, arith}
use blacklist.Connection.{SmartConnectionManager, max_error_logs}
use blacklist.Connection.Logging.{
  log_all, AreWithin, no_errors, one_error, IsValid, log_all-le-max_error_logs,
}

abbrev manager : SmartConnectionManager
manager = record { host = "postgres"; last_error_time = none; error_count = 0; cached_stats = none }

abbrev times : List ℕ
times = 1_000 ∷ 1_500 ∷ 2_000 ∷ 2_500 ∷ 3_000 ∷ 3_500 ∷ []

manager-IsValid : IsValid manager
manager-IsValid = record { limited = omega arith; counted = λ h. refl }

times-AreWithin : AreWithin 1_000 times
times-AreWithin = one_error (omega arith) (omega arith) (
    one_error (omega arith) (omega arith) (
      one_error (omega arith) (omega arith) (
        one_error (omega arith) (omega arith) (
          one_error (omega arith) (omega arith)
            (one_error (omega arith) (omega arith) no_errors)))))

log_all-le-max_error_logs_example : (log_all times manager).0 ≤ max_error_logs
log_all-le-max_error_logs_example =
    log_all-le-max_error_logs 1_000 times manager times-AreWithin manager-IsValid
