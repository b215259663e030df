-- ===== src/Storage/History.antt =====
-- `collection_history` and `collection_status` in collector/core/database/service.py. A call of
-- `get_connection` rolls back when a statement or the commit raises, and gives the error on;
-- `breaks` says that one does. The times of the rows are left out.
pub mod Counts
use blacklist.Prelude.{
  ℕ, suc, ◌+◌, Bool, true, false, Option, none, some, List, [], ◌∷◌, ◌++◌, String, str_eq, length,
  if◌then◌else◌,
}
use blacklist.Prelude.Dict.{lookup, insert}
use blacklist.Prelude.Python.{or_text}

pub record HistoryRow : Type 0 where
  pub service_name : String
  pub success : Bool
  pub items_collected : ℕ
  pub execution_time_ms : ℕ
  pub error_message : String
  pub new_count : ℕ
  pub updated_count : ℕ

pub data Status : Type 0 where
  idle running error : Status

-- The state of the first collection, with the end of its next window while it is in progress.
pub data Config : Type 0 where
  in_progress : String → Config
  complete : String → Config
  skipped : String → Config

pub record StatusRow : Type 0 where
  pub enabled : Bool
  pub status : Status
  pub error_count : ℕ
  pub success_count : ℕ
  pub config : Option Config

-- The rows of the history, newest first, and the rows of the status by their service name.
pub record Tables : Type 0 where
  pub history : List HistoryRow
  pub statuses : List (String × StatusRow)

-- The block of a `with self.get_connection()`: what it did is undone where it raises.
unfoldable pub in_transaction {ℓ} : {A : Type ℓ} → Bool → A → A → A
in_transaction breaks before after = if breaks then before else after

abbrev pub one_if : Bool → ℕ
one_if true = 1
one_if false = 0

-- INSERT ... ON CONFLICT (service_name) DO UPDATE of `record_collection_history`.
unfoldable pub count_run : Bool → Option StatusRow → StatusRow
count_run success none = record {
  enabled = true;
  status = if success then idle else error;
  error_count = if success then 0 else 1;
  success_count = one_if success;
  config = none;
}
count_run success (some row) = record {
  enabled = true;
  status = if success then idle else error;
  error_count = row.error_count + (if success then 0 else 1);
  success_count = row.success_count + one_if success;
  config = row.config;
}

-- The history's row and the status, in one transaction; an error is only logged.
unfoldable pub record_collection_history : Bool → HistoryRow → Tables → Tables
record_collection_history breaks row t = in_transaction breaks t (record {
  history = row ∷ t.history;
  statuses =
      insert row.service_name (count_run row.success (lookup row.service_name t.statuses))
        t.statuses;
})

-- The row that a caller's arguments stand for.
unfoldable pub history_row : String → Bool → ℕ → ℕ → Option String → ℕ → ℕ → HistoryRow
history_row source success items_collected execution_time_ms error_message new_count updated_count =
    record {
      service_name = source;
      success = success;
      items_collected = items_collected;
      execution_time_ms = execution_time_ms;
      error_message = or_text error_message "";
      new_count = new_count;
      updated_count = updated_count;
    }

abbrev pub initial_collection_status : String
initial_collection_status = "REGTECH_INITIAL"

abbrev pub running_status : Config → Status
running_status (in_progress next) = running
running_status _ = idle

unfoldable pub store_config : Config → Option StatusRow → StatusRow
store_config state none = record {
  enabled = true;
  status = running_status state;
  error_count = 0;
  success_count = 0;
  config = some state;
}
store_config state (some row) = record row { status = running_status state; config = some state }

-- The tables, and whether the call raised.
unfoldable pub save_initial_collection_state : Bool → Config → Tables → Bool × Tables
save_initial_collection_state breaks state t = (
  breaks,
  in_transaction breaks t (record t {
    statuses =
        insert initial_collection_status
          (store_config state (lookup initial_collection_status t.statuses)) t.statuses;
  }),
)

abbrev config_of : Option StatusRow → Option Config
config_of none = none
config_of (some row) = row.config

-- What the row says; none where it raises is the outer `none`.
unfoldable pub get_initial_collection_state : Bool → Tables → Option (Option Config)
get_initial_collection_state breaks t =
    if breaks then none else some (config_of (lookup initial_collection_status t.statuses))

-- An error is logged and reads as no row.
unfoldable pub get_collection_status : Bool → String → Tables → Option StatusRow
get_collection_status breaks service_name t =
    if breaks then none else lookup service_name t.statuses
