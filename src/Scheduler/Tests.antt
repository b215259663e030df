-- ===== src/Scheduler/Tests.antt =====
-- Runs of the scheduler with numbers of their own, and the properties on them.
use blacklist.Prelude.{
  ℕ, ◌≤◌, ◌<◌, ◌≡◌, ◌⊎◌, ◌↔◌, refl, Bool, true, false, Option, none, some, List, [], ◌∷◌, arith,
  leb, str_eq, if◌then◌else◌, not, ◌==◌,
}
use blacklist.Scheduler.Backfill.{
  InitialState, in_progress, no_state, skipped, complete, Database, finished, failed, first_end,
  window_from, save_window, save_state, fail_run, collect_windows, collect_regtech_backfill,
}
use blacklist.Scheduler.Backfill.Coverage.{Covers, backfill-Covers}
use blacklist.Scheduler.Adaptive.{CollectionScheduler, Credentials}
use blacklist.Scheduler.Adaptive.Runs.{IsValid}
use blacklist.Scheduler.Force.{
  enter, leave, set_active, found, succeeded, cancel_job, Progress, Faults, after_backfill,
  with_credentials, by_state, force_collection, collect_source, initial_collection,
}
use blacklist.Scheduler.Force.Exclusion.{Threads, enters, here, next, IsExclusive, Reach-exclusive}
use blacklist.Scheduler.Force.Initial.{Succeeded, IsPending, initial_collection_ends}

-- Ten addresses a window; the second download fails from day 80 down.
abbrev works : ℕ → ℕ → Option ℕ
works start end = some 10

abbrev breaks : ℕ → ℕ → Option ℕ
breaks start end = if leb start 80 then none else some 10

abbrev always_saved : InitialState → Bool
always_saved state = true

abbrev fresh : Database
fresh = record { initial = no_state; windows = []; history = [] }

backfill-Covers_example :
    Covers works always_saved 10 false
      (some true)
      100
      42
      fresh
      (collect_regtech_backfill works always_saved false (some true) 100 fresh)
unfolding first_end
backfill-Covers_example =
    backfill-Covers works always_saved false (some true) 100 42 fresh (omega arith) (omega arith)

abbrev after_first : Database
after_first = record {
  initial = in_progress 86;
  windows =
      record { window_start = 94; window_end = 100 }
      ∷ record { window_start = 87; window_end = 93 }
      ∷ [];
  history = true ∷ true ∷ false ∷ [];
}

first_run :
    collect_regtech_backfill breaks always_saved false (some true) 100 fresh
    ≡ (failed 20, after_first)
unfolding collect_regtech_backfill collect_windows first_end window_from save_window save_state
    fail_run
first_run = refl

abbrev after_second : Database
after_second = (collect_regtech_backfill works always_saved false (some true) 101 after_first).1

second_run :
    collect_regtech_backfill works always_saved false (some true) 101 after_first
    ≡ (finished 110, after_second)
unfolding collect_regtech_backfill collect_windows first_end window_from save_window save_state
    fail_run
second_run = refl

-- The checkpoint after the second window is not saved: the window is, and the checkpoint stays.
abbrev stops_at_86 : InitialState → Bool
stops_at_86 (in_progress day) = not (day == 86)
stops_at_86 state = true

unsaved_checkpoint :
    (collect_regtech_backfill works stops_at_86 false (some true) 100 fresh).1.initial
    ≡ in_progress 93
unfolding collect_regtech_backfill collect_windows first_end window_from save_window save_state
    fail_run
unsaved_checkpoint = refl

abbrev scheduler : CollectionScheduler
scheduler = record {
  running = true;
  has_thread = true;
  auto_collection_disabled = false;
  collection_stats = record {
    total_runs = 0;
    successful_runs = 0;
    failed_runs = 0;
    last_run = none;
    last_success = none;
    last_failure = none;
    consecutive_failures = 0;
    adaptive_interval = 1_800;
  };
  jobs = [];
}

scheduler-IsValid : IsValid scheduler
scheduler-IsValid = record {
  counted = omega arith;
  interval_low = omega arith;
  interval_high = omega arith;
}

abbrev moments : List (ℕ × ℕ)
moments = (1, 1) ∷ (2, 2) ∷ (3, 3) ∷ (4, 4) ∷ (5, 5) ∷ (6, 6) ∷ (7, 7) ∷ (8, 8) ∷ (9, 9) ∷ []

abbrev idle : Threads
idle = record { active = λ source. false; collecting = λ source. 0 }

idle-IsExclusive : IsExclusive idle
idle-IsExclusive = record { counts = λ source. refl }

admitted : enter "REGTECH" idle.active ≡ some (set_active "REGTECH" true idle.active)
unfolding enter
admitted = refl

abbrev busy : Threads
busy = record {
  active = set_active "REGTECH" true idle.active;
  collecting = λ j. if str_eq "REGTECH" j then 1 else 0;
}

Reach-exclusive_example :
    (busy.collecting "REGTECH" ≤ 1)
    × ((enter "REGTECH" busy.active ≡ none) ↔ (0 < busy.collecting "REGTECH"))
Reach-exclusive_example =
    Reach-exclusive "REGTECH" idle-IsExclusive
      (next here (enters idle "REGTECH" (set_active "REGTECH" true idle.active) admitted))

abbrev credentials : Credentials
credentials = record { username = "user"; password = "secret"; enabled = true }

abbrev no_faults : Faults
no_faults = record { state_raises = false; data_raises = false; save_raises = false }

abbrev waiting : Progress
waiting = record { initial_retry_at = 0; active = λ source. false; state = no_state }

ended :
    (initial_collection 5_000 no_faults false
      (found (some credentials))
      (λ c. succeeded 40)
      complete
      waiting).0
    ≡ cancel_job
unfolding initial_collection by_state with_credentials after_backfill force_collection enter leave
    collect_source
ended = refl

initial_collection_ends_example :
    (waiting.initial_retry_at ≤ 5_000)
    × (waiting.active "REGTECH" ≡ false)
    × (no_faults.state_raises ≡ false)
    × (((waiting.state ≡ complete) ⊎ (waiting.state ≡ skipped))
        ⊎ (((waiting.state ≡ no_state)
              × (no_faults.data_raises ≡ false)
              × (false ≡ true)
              × (no_faults.save_raises ≡ false)
              × ((initial_collection 5_000 no_faults false
                    (found (some credentials))
                    (λ c. succeeded 40)
                    complete
                    waiting).1.state
                  ≡ skipped))
            ⊎ (IsPending no_faults false waiting.state
                × Succeeded (found (some credentials)) (λ c. succeeded 40))))
initial_collection_ends_example =
    initial_collection_ends 5_000 no_faults false (found (some credentials)) (λ c. succeeded 40)
      complete waiting ended
