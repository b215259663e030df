-- ===== src/Scheduler/Backfill.antt =====
-- `collect_regtech_backfill` of collector/scheduler/manual.py: the last 90 days, newest first, in
-- windows of 7 days, each saved before the checkpoint moves. A date is its ordinal number, and
-- `collect start end` is what one window's download and save give: the number of saved addresses,
-- or `none` where one of them raises. `saved state` tells whether the save of that state succeeds,
-- or raises with the row as it was; no state is saved twice in a run.
pub mod Days
pub mod Windows
pub mod Coverage
use blacklist.Prelude.{
  ℕ, zero, suc, ◌+◌, ◌-◌, Bool, true, false, ◌&&◌, Option, none, some, List, [], ◌∷◌, ◌++◌, leb,
  if◌then◌else◌, max,
}

abbrev pub backfill_days : ℕ
backfill_days = 90

abbrev pub backfill_window_days : ℕ
backfill_window_days = 7

-- The row REGTECH_INITIAL of `collection_status`.
pub data InitialState : Type 0 where
  no_state skipped complete : InitialState
  in_progress : ℕ → InitialState

pub record Window : Type 0 where
  pub window_start : ℕ
  pub window_end : ℕ

-- What the run writes: the state, the saved windows, and the successes and failures that it gives
-- to `record_collection_history`, which never raises.
pub record Database : Type 0 where
  pub initial : InitialState
  pub windows : List Window
  pub history : List Bool

pub data Outcome : Type 0 where
  finished failed : ℕ → Outcome
  authentication_failed out_of_fuel : Outcome

-- `_backfill_checkpoint(state) or current_day`
unfoldable pub first_end : InitialState → ℕ → ℕ
first_end (in_progress day) current_day = day
first_end _ current_day = current_day

unfoldable pub window_from : ℕ → ℕ → ℕ
window_from oldest window_end = max oldest (window_end - (backfill_window_days - 1))

-- A window's addresses are saved and recorded.
unfoldable pub save_window : ℕ → ℕ → Database → Database
save_window start window_end db = record db {
  windows = db.windows ++ record { window_start = start; window_end = window_end } ∷ [];
  history = db.history ++ true ∷ [];
}

unfoldable pub save_state : InitialState → Database → Database
save_state state db = record db { initial = state }

-- The `except`.
unfoldable pub fail_run : ℕ → Database → Outcome × Database
fail_run collected_count db =
    (failed collected_count, record db { history = db.history ++ false ∷ [] })

module _ (collect : ℕ → ℕ → Option ℕ) (saved : InitialState → Bool) (oldest : ℕ) where
  -- The `while window_end >= oldest`, one unit of fuel for each window.
  unfoldable pub collect_windows : ℕ → ℕ → ℕ → Database → Outcome × Database
  collect_windows zero window_end collected_count db = (out_of_fuel, db)
  collect_windows (suc fuel) window_end collected_count db =
      let start = window_from oldest window_end in
      elim (leb oldest window_end) [
        | false ↦ elim (saved complete) [
          | true ↦ (finished collected_count, save_state complete db)
          | false ↦ fail_run collected_count db
        ]
        | true ↦ elim (collect start window_end) [
          | none ↦ fail_run collected_count db
          | some count ↦ elim (saved (in_progress (start - 1))) [
            | true ↦
                collect_windows fuel (start - 1) (collected_count + count)
                  (save_state (in_progress (start - 1)) (save_window start window_end db))
            | false ↦ fail_run (collected_count + count) (save_window start window_end db)
          ]
        ]
      ]

-- Whether the read of the state raises, and what the login gives, `none` where it raises.
unfoldable pub collect_regtech_backfill :
    (ℕ → ℕ → Option ℕ)
    → (InitialState → Bool)
    → Bool
    → Option Bool
    → ℕ
    → Database
    → Outcome × Database
collect_regtech_backfill collect saved read_raises login current_day db =
    let window_end = first_end db.initial current_day in
    elim read_raises [
      | true ↦ fail_run 0 db
      | false ↦ elim login [
        | none ↦ fail_run 0 db
        | some false ↦ (authentication_failed, db)
        | some true ↦ elim (saved (in_progress window_end)) [
          | false ↦ fail_run 0 db
          | true ↦
              collect_windows collect saved (current_day - backfill_days) (suc (suc current_day))
                window_end 0 (save_state (in_progress window_end) db)
        ]
      ]
    ]
