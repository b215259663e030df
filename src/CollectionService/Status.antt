-- ===== src/CollectionService/Status.antt =====
-- `CollectionStatusManager` of app/core/services/collection/collection_status.py: which sources are
-- being collected, and the state of each. A set is a list, a moment a number.
pub mod Consistency
use blacklist.Prelude.{
  ℕ, Bool, true, false, ◌||◌, not, Option, none, some, List, [], ◌∷◌, String, str_eq, if◌then◌else◌,
}
use blacklist.Prelude.Dict.{lookup, insert}

pub record CollectionState : Type 0 where
  pub running : Bool
  pub last_run : Option ℕ
  pub last_error : Option String

pub record StatusManager : Type 0 where
  pub active_collections : List String
  pub collection_status : List (String × CollectionState)

unfoldable pub contains : String → List String → Bool
contains s [] = false
contains s (t ∷ ts) = str_eq s t || contains s ts

-- `set.discard`
unfoldable pub discard : String → List String → List String
discard s [] = []
discard s (t ∷ ts) = if str_eq s t then discard s ts else t ∷ discard s ts

unfoldable pub new_manager : StatusManager
new_manager = record {
  active_collections = [];
  collection_status =
      ("regtech", record { running = false; last_run = none; last_error = none }) ∷ [];
}

abbrev last_run_of : Option CollectionState → Option ℕ
last_run_of none = none
last_run_of (some state) = state.last_run

unfoldable pub start_collection : ℕ → String → StatusManager → Bool × StatusManager
start_collection now collection_type m =
    if contains collection_type m.active_collections then (false, m) else (
      true,
      record {
        active_collections = collection_type ∷ m.active_collections;
        collection_status =
            insert collection_type
              (record { running = true; last_run = some now; last_error = none })
              m.collection_status;
      },
    )

unfoldable pub stop_collection : String → StatusManager → Bool × StatusManager
stop_collection collection_type m =
    if not (contains collection_type m.active_collections) then (false, m) else (
      true,
      record {
        active_collections = discard collection_type m.active_collections;
        collection_status =
            insert collection_type
              (record {
                running = false;
                last_run = last_run_of (lookup collection_type m.collection_status);
                last_error = none;
              })
              m.collection_status;
      },
    )

unfoldable pub stop_each : List String → StatusManager → StatusManager
stop_each [] m = m
stop_each (collection_type ∷ types) m = stop_each types (stop_collection collection_type m).1

-- The collections that were stopped.
unfoldable pub stop_all_collections : StatusManager → List String × StatusManager
stop_all_collections m = (m.active_collections, stop_each m.active_collections m)

unfoldable pub fail_known : String → String → Option CollectionState → StatusManager → StatusManager
fail_known collection_type error none m = m
fail_known collection_type error (some state) m = record {
  active_collections = discard collection_type m.active_collections;
  collection_status =
      insert collection_type (record state { running = false; last_error = some error })
        m.collection_status;
}

unfoldable pub update_collection_error : String → String → StatusManager → StatusManager
update_collection_error collection_type error m =
    fail_known collection_type error (lookup collection_type m.collection_status) m
