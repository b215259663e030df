-- ===== src/CollectionService/Status/Consistency.antt =====
-- The set of active collections and the states agree.
use blacklist.Prelude.{
  ℕ, ◌≡◌, refl, Bool, true, false, not, Option, none, some, List, [], ◌∷◌, String, str_eq, eq_iff,
  if◌then◌else◌, arith,
}
use blacklist.Prelude.Dict.{lookup, insert, lookup-insert}
use blacklist.CollectionService.Status.{
  CollectionState, StatusManager, contains, discard, new_manager, start_collection, stop_collection,
  stop_each, stop_all_collections, fail_known, update_collection_error,
}

abbrev pub is_running : Option CollectionState → Bool
is_running none = false
is_running (some state) = state.running

-- A source is in the set exactly when its state says that it is running.
unfoldable pub IsConsistent : StatusManager → Type 0
IsConsistent m =
    (s : String) → contains s m.active_collections ≡ is_running (lookup s m.collection_status)

pub contains-discard :
    (s t : String) (xs : List String)
    → contains s (discard t xs) ≡ (if str_eq t s then false else contains s xs)
unfolding contains discard
contains-discard s t [] = ground arith
contains-discard s t (x ∷ xs) =
    ground (arith, contains-discard s t xs, eq_iff t x, eq_iff s x, eq_iff t s)

pub new_manager-IsConsistent : IsConsistent new_manager
unfolding IsConsistent new_manager contains lookup
new_manager-IsConsistent s = ground arith

pub start_collection-IsConsistent :
    (now : ℕ) (t : String) (m : StatusManager)
    → IsConsistent m
    → IsConsistent (start_collection now t m).1
unfolding IsConsistent start_collection contains
start_collection-IsConsistent now t m h s = ground (
  arith,
  h s,
  eq_iff t s,
  eq_iff s t,
  lookup-insert t s (record { running = true; last_run = some now; last_error = none })
      m.collection_status,
)

-- Setting a state that is not running, and taking the source out of the set.
cleared :
    (t : String) (state : CollectionState) (m : StatusManager)
    → state.running ≡ false
    → IsConsistent m
    → IsConsistent (record {
      active_collections = discard t m.active_collections;
      collection_status = insert t state m.collection_status;
    })
unfolding IsConsistent
cleared t state m off h s = ground (
  arith,
  h s,
  contains-discard s t m.active_collections,
  lookup-insert t s state m.collection_status,
)

choose-IsConsistent :
    (b : Bool) (x y : Bool × StatusManager)
    → IsConsistent x.1
    → IsConsistent y.1
    → IsConsistent (if b then x else y).1
choose-IsConsistent true x y h k = h
choose-IsConsistent false x y h k = k

pub stop_collection-IsConsistent :
    (t : String) (m : StatusManager) → IsConsistent m → IsConsistent (stop_collection t m).1
unfolding stop_collection
stop_collection-IsConsistent t m h =
    choose-IsConsistent (not (contains t m.active_collections)) (false, m) _ h
      (cleared t _ m refl h)

pub stop_each-IsConsistent :
    (ts : List String) (m : StatusManager) → IsConsistent m → IsConsistent (stop_each ts m)
unfolding stop_each
stop_each-IsConsistent [] m h = h
stop_each-IsConsistent (t ∷ ts) m h =
    stop_each-IsConsistent ts (stop_collection t m).1 (stop_collection-IsConsistent t m h)

fail_known-IsConsistent :
    (t error : String) (state : Option CollectionState) (m : StatusManager)
    → IsConsistent m
    → IsConsistent (fail_known t error state m)
unfolding fail_known
fail_known-IsConsistent t error none m h = h
fail_known-IsConsistent t error (some state) m h = cleared t _ m refl h

pub update_collection_error-IsConsistent :
    (t error : String) (m : StatusManager)
    → IsConsistent m
    → IsConsistent (update_collection_error t error m)
unfolding update_collection_error
update_collection_error-IsConsistent t error m h =
    fail_known-IsConsistent t error (lookup t m.collection_status) m h

-- A call on the manager.
pub data Call : Type 0 where
  starts : ℕ → String → Call
  stops : String → Call
  stops_all : Call
  fails : String → String → Call

unfoldable pub run : List Call → StatusManager → StatusManager
run [] m = m
run (starts now t ∷ calls) m = run calls (start_collection now t m).1
run (stops t ∷ calls) m = run calls (stop_collection t m).1
run (stops_all ∷ calls) m = run calls (stop_all_collections m).1
run (fails t error ∷ calls) m = run calls (update_collection_error t error m)

-- After any calls, in any order and for any sources, a source is in the set of active collections
-- exactly when its state says that it is running, if this held before.
pub run-IsConsistent :
    (calls : List Call) (m : StatusManager) → IsConsistent m → IsConsistent (run calls m)
unfolding run stop_all_collections
run-IsConsistent [] m h = h
run-IsConsistent (starts now t ∷ calls) m h =
    run-IsConsistent calls _ (start_collection-IsConsistent now t m h)
run-IsConsistent (stops t ∷ calls) m h =
    run-IsConsistent calls _ (stop_collection-IsConsistent t m h)
run-IsConsistent (stops_all ∷ calls) m h =
    run-IsConsistent calls _ (stop_each-IsConsistent m.active_collections m h)
run-IsConsistent (fails t error ∷ calls) m h =
    run-IsConsistent calls _ (update_collection_error-IsConsistent t error m h)

stop_each-clears :
    (s : String) (ts : List String) (m : StatusManager)
    → contains s (stop_each ts m).active_collections
      ≡ (if contains s ts then false else contains s m.active_collections)
unfolding stop_each stop_collection contains
stop_each-clears s [] m = refl
stop_each-clears s (t ∷ ts) m = ground (
  arith,
  stop_each-clears s ts (stop_collection t m).1,
  contains-discard s t m.active_collections,
  eq_iff s t,
  eq_iff t s,
)

-- After `stop_all_collections` no source is active, and none is reported as running.
pub stop_all_collections-clears :
    (m : StatusManager) (s : String)
    → IsConsistent m
    → (contains s (stop_all_collections m).1.active_collections ≡ false)
      × (is_running (lookup s (stop_all_collections m).1.collection_status) ≡ false)
unfolding stop_all_collections IsConsistent
stop_all_collections-clears m s h =
    let k : IsConsistent (stop_each m.active_collections m) =
      stop_each-IsConsistent m.active_collections m h in
    ground (arith, stop_each-clears s m.active_collections m, k s)
