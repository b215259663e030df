-- ===== src/Storage/History/Counts.antt =====
-- The status of a service counts its history.
use blacklist.Prelude.{
  ℕ, ◌+◌, ◌≡◌, Bool, true, false, Option, none, some, List, [], ◌∷◌, String, str_eq, eq_iff,
  if◌then◌else◌, arith,
}
use blacklist.Prelude.Dict.{lookup, lookup-insert}
use blacklist.Storage.History.{
  HistoryRow, Config, StatusRow, Tables, in_transaction, one_if, count_run, store_config,
  record_collection_history, save_initial_collection_state, get_initial_collection_state,
  initial_collection_status,
}

-- The runs of a service in the history, of one outcome.
unfoldable pub runs_of : String → Bool → List HistoryRow → ℕ
runs_of service outcome [] = 0
runs_of service outcome (row ∷ history) =
    (if str_eq row.service_name service
      then (if row.success then one_if outcome else (if outcome then 0 else 1))
      else 0)
    + runs_of service outcome history

abbrev pub errors : Option StatusRow → ℕ
errors none = 0
errors (some row) = row.error_count

abbrev pub successes : Option StatusRow → ℕ
successes none = 0
successes (some row) = row.success_count

-- For every service, the counters of its status are the numbers of its failed and successful runs.
unfoldable pub IsCounted : Tables → Type 0
IsCounted t =
    (service : String)
    → (errors (lookup service t.statuses) ≡ runs_of service false t.history)
      × (successes (lookup service t.statuses) ≡ runs_of service true t.history)

pub record_collection_history-IsCounted :
    (breaks : Bool) (row : HistoryRow) (t : Tables)
    → IsCounted t
    → IsCounted (record_collection_history breaks row t)
unfolding record_collection_history in_transaction IsCounted runs_of count_run
record_collection_history-IsCounted breaks row t h service = ground (
  arith,
  h service,
  h row.service_name,
  eq_iff row.service_name service,
  lookup-insert row.service_name service
      (count_run row.success (lookup row.service_name t.statuses)) t.statuses,
)

pub save_initial_collection_state-IsCounted :
    (breaks : Bool) (state : Config) (t : Tables)
    → IsCounted t
    → IsCounted (save_initial_collection_state breaks state t).1
unfolding save_initial_collection_state in_transaction IsCounted store_config
save_initial_collection_state-IsCounted breaks state t h service = ground (
  arith,
  h service,
  h initial_collection_status,
  eq_iff initial_collection_status service,
  lookup-insert initial_collection_status service
      (store_config state (lookup initial_collection_status t.statuses)) t.statuses,
)

-- A state of the first collection that was saved is read back, whatever run is recorded after it
-- for whatever service, and whether or not recording it raises.
pub initial_state_roundtrip :
    (state : Config) (breaks : Bool) (row : HistoryRow) (t : Tables)
    → get_initial_collection_state false
        (record_collection_history breaks row (save_initial_collection_state false state t).1)
      ≡ some (some state)
unfolding get_initial_collection_state record_collection_history save_initial_collection_state
    in_transaction store_config count_run
initial_state_roundtrip state breaks row t =
    let t₁ = (save_initial_collection_state false state t).1 in
    ground (
      arith,
      eq_iff row.service_name initial_collection_status,
      eq_iff initial_collection_status initial_collection_status,
      eq_iff initial_collection_status row.service_name,
      lookup-insert initial_collection_status initial_collection_status
          (store_config state (lookup initial_collection_status t.statuses)) t.statuses,
      lookup-insert initial_collection_status row.service_name
          (store_config state (lookup initial_collection_status t.statuses)) t.statuses,
      lookup-insert row.service_name initial_collection_status
          (count_run row.success (lookup row.service_name t₁.statuses)) t₁.statuses,
    )
