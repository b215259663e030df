-- ===== src/Scheduler/Adaptive.antt =====
-- The statistics and the adaptive interval of collector/scheduler/manager.py, and the runs of
-- collector/scheduler/scheduled.py that move them. Times and intervals are seconds; the products
-- by 0.8 and 1.5 are cut by `int` as in the source.
pub mod Runs
use blacklist.Prelude.{
  ℕ, ◌+◌, ◌*◌, ◌/◌, Bool, true, false, ◌||◌, not, Option, none, some, String, List, [], ◌∷◌, ◌++◌,
  leb, ◌==◌, if◌then◌else◌, max, min,
}
use blacklist.Prelude.Python.{empty_text}

pub record Stats : Type 0 where
  pub total_runs : ℕ
  pub successful_runs : ℕ
  pub failed_runs : ℕ
  pub last_run : Option ℕ
  pub last_success : Option ℕ
  pub last_failure : Option ℕ
  pub consecutive_failures : ℕ
  pub adaptive_interval : ℕ

-- The jobs of the `schedule` library.
pub data Job : Type 0 where
  daily_collection cleanup_expired initial_collection : Job
  adaptive_collection : ℕ → Job

pub record CollectionScheduler : Type 0 where
  pub running : Bool
  pub has_thread : Bool
  pub auto_collection_disabled : Bool
  pub collection_stats : Stats
  pub jobs : List Job

abbrev pub max_interval : ℕ
max_interval = 3600

abbrev pub min_interval : ℕ
min_interval = 300

abbrev pub failure_threshold : ℕ
failure_threshold = 3

-- `schedule.clear("adaptive")`
unfoldable pub clear_adaptive : List Job → List Job
clear_adaptive [] = []
clear_adaptive (adaptive_collection n ∷ jobs) = clear_adaptive jobs
clear_adaptive (daily_collection ∷ jobs) = daily_collection ∷ clear_adaptive jobs
clear_adaptive (cleanup_expired ∷ jobs) = cleanup_expired ∷ clear_adaptive jobs
clear_adaptive (initial_collection ∷ jobs) = initial_collection ∷ clear_adaptive jobs

unfoldable pub reschedule_adaptive : CollectionScheduler → CollectionScheduler
reschedule_adaptive s = record s {
  jobs = clear_adaptive s.jobs ++ adaptive_collection s.collection_stats.adaptive_interval ∷ [];
}

unfoldable pub set_interval : ℕ → CollectionScheduler → CollectionScheduler
set_interval new_interval s =
    if new_interval == s.collection_stats.adaptive_interval
    then s
    else reschedule_adaptive (record s {
      collection_stats = record (s.collection_stats) { adaptive_interval = new_interval };
    })

unfoldable pub adjust_interval_success : CollectionScheduler → CollectionScheduler
adjust_interval_success s =
    set_interval (max min_interval (s.collection_stats.adaptive_interval * 8 / 10)) s

unfoldable pub adjust_interval_failure : CollectionScheduler → CollectionScheduler
adjust_interval_failure s =
    if leb failure_threshold s.collection_stats.consecutive_failures
    then set_interval (min max_interval (s.collection_stats.adaptive_interval * 3 / 2)) s
    else s

unfoldable pub start : CollectionScheduler → CollectionScheduler
start s =
    if s.running
    then s
    else (if s.auto_collection_disabled then record s { running = true } else record s {
      running = true;
      has_thread = true;
      jobs = s.jobs ++ daily_collection ∷ cleanup_expired ∷ initial_collection ∷ [];
    })

unfoldable pub stop : CollectionScheduler → CollectionScheduler
stop s = if s.running then record s { running = false; jobs = [] } else s

-- What the collector and the save of one run do: raise, find nothing, or store something.
pub data Collected : Type 0 where
  raised nothing stored : Collected

unfoldable pub count_failure : ℕ → CollectionScheduler → CollectionScheduler
count_failure now s = record s {
  collection_stats = record (s.collection_stats) {
    failed_runs = s.collection_stats.failed_runs + 1;
    last_failure = some now;
    consecutive_failures = s.collection_stats.consecutive_failures + 1;
  };
}

unfoldable pub count_success : ℕ → CollectionScheduler → CollectionScheduler
count_success now s = record s {
  collection_stats = record (s.collection_stats) {
    successful_runs = s.collection_stats.successful_runs + 1;
    last_success = some now;
    consecutive_failures = 0;
  };
}

unfoldable pub begin_run : ℕ → CollectionScheduler → CollectionScheduler
begin_run now s = record s {
  collection_stats = record (s.collection_stats) {
    total_runs = s.collection_stats.total_runs + 1;
    last_run = some now;
  };
}

-- `now` is the start of the run and `end` the moment at which an exception is caught.
unfoldable pub run_adaptive_collection :
    ℕ → ℕ → Collected → CollectionScheduler → Bool × CollectionScheduler
run_adaptive_collection now end raised s =
    (false, adjust_interval_failure (count_failure end (begin_run now s)))
run_adaptive_collection now end nothing s =
    (false, adjust_interval_failure (count_failure now (begin_run now s)))
run_adaptive_collection now end stored s =
    (true, adjust_interval_success (count_success now (begin_run now s)))

-- The stored credentials of REGTECH, and what a collection with them returns.
pub record Credentials : Type 0 where
  pub username : String
  pub password : String
  pub enabled : Bool

pub data Collection : Type 0 where
  collected : ℕ → Collection
  refused raises : Collection

unfoldable pub record_failure : ℕ → CollectionScheduler → CollectionScheduler
record_failure now s = record s {
  collection_stats = record (s.collection_stats) {
    failed_runs = s.collection_stats.failed_runs + 1;
    last_failure = some now;
  };
}

abbrev finish_run : ℕ → ℕ → Collection → CollectionScheduler → CollectionScheduler
finish_run now end (collected n) s = record s {
  collection_stats = record (s.collection_stats) {
    successful_runs = s.collection_stats.successful_runs + 1;
    last_success = some now;
  };
}
finish_run now end refused s = record_failure end s
finish_run now end raises s = record_failure end s

-- `run_collection`: a run with collection switched off is counted as a run and nothing else.
unfoldable pub run_collection :
    ℕ → ℕ → Option Credentials → Collection → CollectionScheduler → CollectionScheduler
run_collection now end none result s = record_failure end (begin_run now s)
run_collection now end (some c) result s =
    if not c.enabled
    then begin_run now s
    else (if empty_text c.username || empty_text c.password
        then record_failure end (begin_run now s)
        else finish_run now end result (begin_run now s))
