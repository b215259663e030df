-- ===== src/IpManagement/Decisions.antt =====
-- The administrator's writes and the checks of addresses in one run, each to its end before the
-- next.
use blacklist.Prelude.{
  ℕ, ◌≡◌, sym, ◌∙◌, inl, inr, Bool, true, false, Bool-cases, ◌&&◌, String, List, [], ◌∷◌, arith,
}
use blacklist.Prelude.Dict.{lookup}
use blacklist.Decision.{
  Service, Tables, check_blacklist, log_decision, query_whitelist, is_whitelisted, query_blacklist,
  check_entry,
}
use blacklist.Decision
use blacklist.Decision.Coherence.{
  answer, reference, check_blacklist-IsCoherent, check_blacklist-reference,
}
use blacklist.Decision.Invalidation.{uncached_reference}
use blacklist.IpManagement.{Python}
use blacklist.IpManagement.Repository.{Lists, decided_on}
use blacklist.IpManagement.Routes.{State, Faults, Request, handle}
use blacklist.IpManagement.Coherence.{IsCurrent, invalidated}
use blacklist.IpManagement.Traffic.{handle-IsCurrent}
use blacklist.IpManagement.Batch.{
  Batch, BatchAnswer, batch_add_blacklist, batch_remove_blacklist, batch_update_blacklist,
}
use blacklist.IpManagement.Batch.Requests.{
  batch_invalidated, KeepsBatch, batch_add_blacklist-KeepsBatch, batch_remove_blacklist-KeepsBatch,
  batch_update_blacklist-KeepsBatch,
}

-- The three batch routes.
pub data BatchRoute : Type 0 where
  batch_add batch_remove batch_update : BatchRoute

unfoldable pub handle_batch : Python → BatchRoute → ℕ → Faults → Batch → State → BatchAnswer × State
handle_batch python batch_add today faults body state =
    batch_add_blacklist python today faults body state
handle_batch python batch_remove today faults body state =
    batch_remove_blacklist python today faults body state
handle_batch python batch_update today faults body state =
    batch_update_blacklist python today faults body state

-- A write of one address or a batch with what fails during it, or a check of an address at a
-- moment.
pub data Event : Type 0 where
  write : Faults → Request → Event
  batch : BatchRoute → ℕ → Faults → Batch → Event
  check : ℕ → String → Decision.Faults → Event

unfoldable pub check_in : ℕ → String → Decision.Faults → State → State
check_in now ip faults state = record state {
  service = (check_blacklist (decided_on state.lists) faults now ip state.service).1;
}

unfoldable pub run : Python → List Event → State → State
run python [] state = state
run python (write faults request ∷ events) state =
    run python events (handle python faults request state).1
run python (batch route today faults body ∷ events) state =
    run python events (handle_batch python route today faults body state).1
run python (check now ip faults ∷ events) state = run python events (check_in now ip faults state)

-- No write of the run went through without its keys being deleted.
unfoldable pub all_invalidated : Python → List Event → State → Bool
all_invalidated python [] state = true
all_invalidated python (write faults request ∷ events) state =
    invalidated (handle python faults request state).0
    && all_invalidated python events (handle python faults request state).1
all_invalidated python (batch route today faults body ∷ events) state =
    batch_invalidated (handle_batch python route today faults body state).0
    && all_invalidated python events (handle_batch python route today faults body state).1
all_invalidated python (check now ip faults ∷ events) state =
    all_invalidated python events (check_in now ip faults state)

-- The service after its start.
unfoldable pub started : Bool → Service
started has_redis = record {
  has_redis = has_redis;
  whitelist_cache = [];
  blacklist_cache = [];
  decisions = [];
}

has_redis-check_blacklist :
    (db : Tables) (faults : Decision.Faults) (now : ℕ) (ip : String) (s : Service)
    → (check_blacklist db faults now ip s).1.has_redis ≡ s.has_redis
unfolding check_blacklist is_whitelisted query_whitelist check_entry query_blacklist log_decision
has_redis-check_blacklist db faults now ip s = ground arith

pub started-IsCurrent : (horizon : ℕ) (t : Lists) (b : Bool) → IsCurrent horizon t (started b)
unfolding IsCurrent started lookup
started-IsCurrent horizon t b = λ redis. record { listed = λ ip. tt; answers = λ ip. tt }

check_in-IsCurrent :
    (horizon now : ℕ) (ip : String) (faults : Decision.Faults) (state : State)
    → IsCurrent horizon state.lists state.service
    → IsCurrent horizon state.lists (check_in now ip faults state).service
unfolding check_in IsCurrent
check_in-IsCurrent horizon now ip faults state current = λ redis.
    check_blacklist-IsCoherent (decided_on state.lists) horizon now ip faults state.service (
      current (
        sym (has_redis-check_blacklist (decided_on state.lists) faults now ip state.service)
        ∙ redis))

handle_batch-IsCurrent :
    (python : Python) (horizon today : ℕ) (faults : Faults) (route : BatchRoute) (body : Batch)
    (state : State)
    → IsCurrent horizon state.lists state.service
    → batch_invalidated (handle_batch python route today faults body state).0 ≡ true
    → IsCurrent horizon
        (handle_batch python route today faults body state).1.lists
        (handle_batch python route today faults body state).1.service
unfolding handle_batch KeepsBatch
handle_batch-IsCurrent python horizon today faults batch_add body state current ok =
    batch_add_blacklist-KeepsBatch python horizon today faults state current body ok
handle_batch-IsCurrent python horizon today faults batch_remove body state current ok =
    batch_remove_blacklist-KeepsBatch python horizon today faults state current body ok
handle_batch-IsCurrent python horizon today faults batch_update body state current ok =
    batch_update_blacklist-KeepsBatch python horizon today faults state current body ok

run-IsCurrent :
    (python : Python) (horizon : ℕ) (events : List Event) (state : State)
    → IsCurrent horizon state.lists state.service
    → all_invalidated python events state ≡ true
    → IsCurrent horizon (run python events state).lists (run python events state).service
unfolding run all_invalidated check_in
run-IsCurrent python horizon [] state current ok = current
run-IsCurrent python horizon (write faults request ∷ events) state current ok =
    run-IsCurrent python horizon events (handle python faults request state).1
      (handle-IsCurrent python horizon faults request state current (ground arith)) (ground arith)
run-IsCurrent python horizon (batch route today faults body ∷ events) state current ok =
    run-IsCurrent python horizon events (handle_batch python route today faults body state).1
      (handle_batch-IsCurrent python horizon today faults route body state current (ground arith))
      (ground arith)
run-IsCurrent python horizon (check now ip faults ∷ events) state current ok =
    run-IsCurrent python horizon events (check_in now ip faults state)
      (check_in-IsCurrent horizon now ip faults state current) ok

pub current_reference :
    (t : Lists) (now : ℕ) (ip : String) (faults : Decision.Faults) (s : Service)
    → faults.whitelist_query ≡ false
    → faults.blacklist_query ≡ false
    → IsCurrent 0 t s
    → answer (check_blacklist (decided_on t) faults now ip s).0 ≡ reference (decided_on t) ip
unfolding IsCurrent
current_reference t now ip faults s up up' current = elim (Bool-cases s.has_redis) [
  | inl redis ↦
      check_blacklist-reference (decided_on t) 0 now ip faults s (omega arith) up up'
        (current redis)
  | inr without ↦
      uncached_reference (decided_on t) now ip faults s up up' (λ redis. absurd (ground arith))
]

-- From an empty cache, after any run of writes by the administrator, of one address or of a batch,
-- and of checks, with any failures of the calls, in which no write went through without its keys
-- being deleted, a
-- check for which the database answers goes by the tables as the writes left them: no cached
-- decision is out of date.
pub run_up_to_date :
    (python : Python) (lists : Lists) (has_redis : Bool) (events : List Event) (now : ℕ)
    (ip : String) (faults : Decision.Faults)
    → all_invalidated python events (record { lists = lists; service = started has_redis }) ≡ true
    → faults.whitelist_query ≡ false
    → faults.blacklist_query ≡ false
    → let state = run python events (record { lists = lists; service = started has_redis }) in
      answer (check_blacklist (decided_on state.lists) faults now ip state.service).0
      ≡ reference (decided_on state.lists) ip
run_up_to_date python lists has_redis events now ip faults ok up up' =
    let state = run python events (record { lists = lists; service = started has_redis }) in
    current_reference state.lists now ip faults state.service up up' (
      run-IsCurrent python 0 events (record { lists = lists; service = started has_redis })
        (started-IsCurrent 0 lists has_redis) ok)
