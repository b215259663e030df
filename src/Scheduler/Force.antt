-- ===== src/Scheduler/Force.antt =====
-- `force_collection` and `_initial_collection` of collector/scheduler/manager.py.
pub mod Exclusion
pub mod Initial
use blacklist.Prelude.{
  ℕ, ◌+◌, ◌-◌, Bool, true, false, ◌||◌, not, Option, none, some, String, str_eq, ltb, if◌then◌else◌,
}
use blacklist.Prelude.Python.{empty_text}
use blacklist.Scheduler.Adaptive.{Credentials}
use blacklist.Scheduler.Backfill.{InitialState, no_state, skipped, complete, in_progress}

-- `_active_collections`, a set behind a lock.
abbrev pub Active : Type 0
Active = String → Bool

unfoldable pub set_active : String → Bool → Active → Active
set_active source b active j = if str_eq source j then b else active j

pub data Reply : Type 0 where
  already_running no_credentials collection_disabled invalid_credentials unknown_source : Reply
  done : ℕ → Reply
  failed : Reply

-- What the credentials' query does, and what the collection itself does.
pub data Stored : Type 0 where
  query_raises : Stored
  found : Option Credentials → Stored

-- What a collection gives: the number collected, an unsuccessful result, or an exception.
pub data Collection : Type 0 where
  succeeded : ℕ → Collection
  unsuccessful raises : Collection

abbrev pub reply_of : Collection → Reply
reply_of (succeeded n) = done n
reply_of unsuccessful = failed
reply_of raises = failed

-- The body between the two locked sections.
unfoldable pub collect_source : String → Stored → (Credentials → Collection) → Reply
collect_source source query_raises collect = failed
collect_source source (found none) collect = no_credentials
collect_source source (found (some c)) collect =
    if not c.enabled
    then collection_disabled
    else (if empty_text c.username || empty_text c.password
        then invalid_credentials
        else (if str_eq source "REGTECH" then reply_of (collect c) else unknown_source))

-- The first locked section: `none` refuses a duplicate.
unfoldable pub enter : String → Active → Option Active
enter source active = if active source then none else some (set_active source true active)

-- The second one, in `finally`.
unfoldable pub leave : String → Active → Active
leave source = set_active source false

unfoldable pub force_collection :
    String → Stored → (Credentials → Collection) → Active → Reply × Active
force_collection source stored collect active = elim (enter source active) [
  | none ↦ (already_running, active)
  | some active' ↦ (collect_source source stored collect, leave source active')
]

-- What the job of the `schedule` library returns: go on, or cancel.
pub data JobResult : Type 0 where
  keep cancel_job : JobResult

abbrev pub initial_collection_retry_seconds : ℕ
initial_collection_retry_seconds = 3600

pub record Progress : Type 0 where
  pub initial_retry_at : ℕ
  pub active : Active
  pub state : InitialState

-- Whether the collection itself ran, and so may have moved the state.
abbrev ran : Reply → Bool
ran (done n) = true
ran failed = true
ran _ = false

abbrev pub job_result : Reply → JobResult
job_result (done n) = cancel_job
job_result _ = keep

abbrev retry_at : ℕ → Reply → ℕ → ℕ
retry_at now (done n) before = before
retry_at now _ before = now + initial_collection_retry_seconds

-- The backfill was called: its job is over, or is tried again after an hour. `left` is the state
-- that the backfill leaves in the database.
unfoldable pub after_backfill : ℕ → Reply × Active → InitialState → Progress → JobResult × Progress
after_backfill now (reply, active) left p = (
  job_result reply,
  record {
    initial_retry_at = retry_at now reply p.initial_retry_at;
    active = active;
    state = if ran reply then left else p.state;
  },
)

-- The `except`: the job goes on after an hour.
unfoldable pub retry_later : ℕ → Progress → JobResult × Progress
retry_later now p = (keep, record p { initial_retry_at = now + initial_collection_retry_seconds })

unfoldable pub with_credentials :
    ℕ → Stored → (Credentials → Collection) → InitialState → Progress → JobResult × Progress
with_credentials now query_raises backfill left p = retry_later now p
with_credentials now (found none) backfill left p = (keep, p)
with_credentials now (found (some c)) backfill left p =
    if not c.enabled
    then (keep, p)
    else after_backfill now (force_collection "REGTECH" (found (some c)) backfill p.active) left p

-- What raises among the calls of the database before the credentials are read: the read of the
-- state, the search for older data, and the save of `skipped`.
pub record Faults : Type 0 where
  pub state_raises : Bool
  pub data_raises : Bool
  pub save_raises : Bool

unfoldable pub by_state :
    InitialState
    → Faults
    → Bool
    → ℕ
    → Stored
    → (Credentials → Collection)
    → InitialState
    → Progress
    → JobResult × Progress
by_state complete faults has_data now stored backfill left p = (cancel_job, p)
by_state skipped faults has_data now stored backfill left p = (cancel_job, p)
by_state no_state faults has_data now stored backfill left p =
    if faults.data_raises
    then retry_later now p
    else (if has_data
        then (if faults.save_raises
            then retry_later now p
            else (cancel_job, record p { state = skipped }))
        else with_credentials now stored backfill left p)
by_state (in_progress day) faults has_data now stored backfill left p =
    with_credentials now stored backfill left p

-- `has_data` and `stored` are what the queries find.
unfoldable pub initial_collection :
    ℕ
    → Faults
    → Bool
    → Stored
    → (Credentials → Collection)
    → InitialState
    → Progress
    → JobResult × Progress
initial_collection now faults has_data stored backfill left p =
    if ltb now p.initial_retry_at || p.active "REGTECH"
    then (keep, p)
    else (if faults.state_raises
        then retry_later now p
        else by_state p.state faults has_data now stored backfill left p)
