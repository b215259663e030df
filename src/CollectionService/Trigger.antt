-- ===== src/CollectionService/Trigger.antt =====
-- `trigger_collection` of app/core/services/collection_service.py, with `save_collection_data` of
-- app/core/services/collection/collection_persistence.py and the recording of
-- app/core/services/collection/collection_history.py. `collected` is what the collector gives,
-- `insert_all` is none where the database raises, and `history_breaks` says that recording raises in
-- it. The texts of the errors are abridged.
pub mod Outcomes
use blacklist.Prelude.{
  ℕ, Bool, true, false, not, Option, none, some, List, [], ◌∷◌, String, str_eq, length,
  if◌then◌else◌,
}
use blacklist.CollectionService.Status.{
  StatusManager, contains, discard, start_collection, stop_collection, update_collection_error,
  stop_all_collections,
}

-- A row of `collection_history`, without its time and details.
pub record HistoryRow : Type 0 where
  pub service_name : String
  pub items_collected : ℕ
  pub success : Bool
  pub error_message : Option String

unfoldable pub record_collection_history :
    Bool → String → ℕ → Bool → Option String → List HistoryRow → List HistoryRow
record_collection_history history_breaks collection_type collected_count success error_message
      history =
    if history_breaks
    then history
    else record {
      service_name = collection_type;
      items_collected = collected_count;
      success = success;
      error_message = error_message;
    }
      ∷ history

-- The defaults of its parameters `success` and `error_message`.
abbrev pub default_success : Bool
default_success = true

abbrev pub default_error_message : Option String
default_error_message = none

abbrev pub is_empty {ℓ} : {Item : Type ℓ} → List Item → Bool
is_empty [] = true
is_empty (x ∷ xs) = false

module _ {ℓ} (Item Table : Type ℓ) where
  pub data Collected : Type ℓ where
    items : List Item → Collected
    raises : String → Collected

  -- What the validator makes of the items, or the text of its exception.
  pub data Validated : Type ℓ where
    valid : List Item → Validated
    invalid : String → Validated

  -- The dictionary that a trigger returns.
  pub record Result : Type ℓ where
    pub success : Bool
    pub error : Option String
    pub collected_count : ℕ
    pub found : List Item
    pub validated_count : Option ℕ

  -- The service, its status manager and the two tables.
  pub record Service : Type ℓ where
    pub active_collections : List String
    pub manager : StatusManager
    pub history : List HistoryRow
    pub table : Table

module _ {ℓ} {Item Table : Type ℓ} where
  abbrev failure : String → Result Item Table
  failure error = record {
    success = false;
    error = some error;
    collected_count = 0;
    found = [];
    validated_count = none;
  }

  abbrev outcome : Collected Item Table → Result Item Table
  outcome (items found) = record {
    success = true;
    error = none;
    collected_count = length found;
    found = found;
    validated_count = none;
  }
  outcome (raises error) = failure error

  -- Only the source REGTECH is supported.
  unfoldable pub perform_collection :
      (String → String) → String → Collected Item Table → Result Item Table
  perform_collection lower source collected =
      if str_eq (lower source) "regtech" then outcome collected else failure "unsupported source"

  -- One transaction; an error is logged and answered as False.
  unfoldable pub save_collection_data :
      (List Item → Table → Option Table) → List Item → Table → Bool × Table
  save_collection_data insert_all found table = elim (insert_all found table) [
    | none ↦ (false, table)
    | some table' ↦ (true, table')
  ]

  module _ (lower : String → String) (now : ℕ) (validate : List Item → Validated Item Table)
      (insert_all : List Item → Table → Option Table) (history_breaks : Bool) where
    -- The data of a successful collection: what the save answers is not looked at.
    unfoldable pub save_validated :
        String
        → Result Item Table
        → Service Item Table
        → Validated Item Table
        → Result Item Table × Service Item Table
    save_validated source result s (invalid save_error) =
        (result, record s { manager = update_collection_error source save_error s.manager })
    save_validated source result s (valid validated_data) = (
      record result { validated_count = some (length validated_data) },
      record s { table = (save_collection_data insert_all validated_data s.table).1 },
    )

    -- The `finally`.
    unfoldable pub release : String → Service Item Table → Service Item Table
    release source s = record s {
      active_collections = discard source s.active_collections;
      manager = (stop_collection source s.manager).1;
    }

    -- The outcome goes into `additional_info` only: the two parameters keep their defaults.
    unfoldable pub collect_and_record :
        String → Collected Item Table → Service Item Table → Result Item Table × Service Item Table
    collect_and_record source collected s =
        let result = perform_collection lower source collected in
        let s₁ = record s {
          history =
              record_collection_history history_breaks source result.collected_count default_success
                default_error_message s.history;
        } in
        let (result', s₂) = save_validated source result s₁ (validate result.found) in
        if result.success
        then (if is_empty result.found then (result, s₁) else (result', s₂))
        else (result, s₁)

    unfoldable pub trigger_collection :
        String → Collected Item Table → Service Item Table → Result Item Table × Service Item Table
    trigger_collection source collected s =
        let (started, m) = start_collection now source s.manager in
        let s₁ = record s { active_collections = source ∷ s.active_collections; manager = m } in
        let (result, s₂) = collect_and_record source collected s₁ in
        if contains source s.active_collections
        then (failure "already running", s)
        else (if not started then (failure "not started", s) else (result, release source s₂))

    -- `trigger_all_collections`: REGTECH is the only source. The total counts a success only.
    unfoldable pub trigger_all_collections :
        Collected Item Table → Service Item Table → Bool × ℕ × Service Item Table
    trigger_all_collections collected s =
        let (result, s') = trigger_collection "regtech" collected s in
        (result.success, if result.success then result.collected_count else 0, s')

  -- `CollectionService.stop_all_collections`, with the sources that the manager stopped.
  unfoldable pub stop_service : Service Item Table → List String × Service Item Table
  stop_service s =
      let (stopped, m) = stop_all_collections s.manager in
      (stopped, record s { active_collections = []; manager = m })
