-- ===== src/Scheduler/Adaptive/Runs.antt =====
-- The counters and the interval over any sequence of runs.
use blacklist.Prelude.{
  ℕ, zero, suc, ◌+◌, ◌*◌, ◌/◌, ◌≤◌, ◌<◌, ◌≡◌, Option, List, [], ◌∷◌, arith, min, length, subst,
}
use blacklist.Scheduler.Adaptive.{
  CollectionScheduler, max_interval, min_interval, failure_threshold, reschedule_adaptive,
  set_interval, adjust_interval_success, adjust_interval_failure, Collected, raised, nothing,
  stored, count_failure, count_success, begin_run, run_adaptive_collection, Credentials, Collection,
  record_failure, run_collection,
}

pub data Run : Type 0 where
  adaptive : ℕ → ℕ → Collected → Run
  scheduled : ℕ → ℕ → Option Credentials → Collection → Run

unfoldable pub perform : Run → CollectionScheduler → CollectionScheduler
perform (adaptive now end c) s = (run_adaptive_collection now end c s).1
perform (scheduled now end c r) s = run_collection now end c r s

unfoldable pub perform_all : List Run → CollectionScheduler → CollectionScheduler
perform_all [] s = s
perform_all (r ∷ rs) s = perform_all rs (perform r s)

pub record IsValid (s : CollectionScheduler) : Type 0 where
  pub counted :
      s.collection_stats.successful_runs + s.collection_stats.failed_runs
      ≤ s.collection_stats.total_runs
  pub interval_low : min_interval ≤ s.collection_stats.adaptive_interval
  pub interval_high : s.collection_stats.adaptive_interval ≤ max_interval

perform-IsValid : (r : Run) (s : CollectionScheduler) → IsValid s → IsValid (perform r s)
unfolding perform run_adaptive_collection run_collection adjust_interval_success
    adjust_interval_failure set_interval reschedule_adaptive count_failure count_success begin_run
    record_failure
perform-IsValid (adaptive now end raised) s v = ground arith
perform-IsValid (adaptive now end nothing) s v = ground arith
perform-IsValid (adaptive now end stored) s v = ground arith
perform-IsValid (scheduled now end c r) s v = ground arith

-- Over any runs, adaptive or scheduled, the successes and failures together never exceed the runs,
-- and the adaptive interval stays between 5 minutes and an hour, if that was so before.
pub perform_all-IsValid :
    (rs : List Run) (s : CollectionScheduler) → IsValid s → IsValid (perform_all rs s)
unfolding perform_all
perform_all-IsValid [] s v = v
perform_all-IsValid (r ∷ rs) s v = perform_all-IsValid rs (perform r s) (perform-IsValid r s v)

-- Every adaptive run counts as exactly one success or failure, whichever way it ends.
pub run_adaptive_collection-counts :
    (now end : ℕ) (c : Collected) (s : CollectionScheduler)
    → (((run_adaptive_collection now end c s).1.collection_stats.successful_runs
          + (run_adaptive_collection now end c s).1.collection_stats.failed_runs)
        ≡ s.collection_stats.successful_runs + s.collection_stats.failed_runs + 1)
      × ((run_adaptive_collection now end c s).1.collection_stats.total_runs
          ≡ s.collection_stats.total_runs + 1)
unfolding run_adaptive_collection adjust_interval_success adjust_interval_failure set_interval
    reschedule_adaptive count_failure count_success begin_run
run_adaptive_collection-counts now end c s = ground arith

abbrev pub slower : ℕ → ℕ
slower x = min max_interval (x * 3 / 2)

-- One more failure, once the threshold is near.
failure_step :
    (now end : ℕ) (s : CollectionScheduler)
    → ((run_adaptive_collection now end raised s).1.collection_stats.consecutive_failures
        ≡ s.collection_stats.consecutive_failures + 1)
      × (failure_threshold ≤ s.collection_stats.consecutive_failures + 1
          → (run_adaptive_collection now end raised s).1.collection_stats.adaptive_interval
            ≡ slower s.collection_stats.adaptive_interval)
      × (s.collection_stats.consecutive_failures + 1 < failure_threshold
          → (run_adaptive_collection now end raised s).1.collection_stats.adaptive_interval
            ≡ s.collection_stats.adaptive_interval)
unfolding run_adaptive_collection adjust_interval_failure set_interval reschedule_adaptive
    count_failure begin_run
failure_step now end s = ground arith

abbrev pub failures : List (ℕ × ℕ) → List Run
failures [] = []
failures ((now, end) ∷ ts) = adaptive now end raised ∷ failures ts

abbrev slower_than : ℕ → ℕ → ℕ
slower_than zero lo = lo
slower_than (suc n) lo = slower_than n (slower lo)

slower_mono : (a b : ℕ) → a ≤ b → slower a ≤ slower b
slower_mono a b h = omega arith

failures-slower :
    (ts : List (ℕ × ℕ)) (lo : ℕ) (s : CollectionScheduler)
    → failure_threshold ≤ s.collection_stats.consecutive_failures + 1
    → lo ≤ s.collection_stats.adaptive_interval
    → slower_than (length ts) lo ≤ (perform_all (failures ts) s).collection_stats.adaptive_interval
unfolding perform_all perform
failures-slower [] lo s h k = k
failures-slower ((now, end) ∷ ts) lo s h k =
    let (c, grown, _) = failure_step now end s in
    let s' = (run_adaptive_collection now end raised s).1 in
    failures-slower ts (slower lo) s' (omega arith)
      (omega (arith, grown h, slower_mono lo s.collection_stats.adaptive_interval k))

-- Nine failing runs in a row slow the collection down to once an hour, from any interval in its
-- range.
pub failures-interval :
    (ts : List (ℕ × ℕ)) (s : CollectionScheduler)
    → IsValid s
    → length ts ≡ 9
    → (perform_all (failures ts) s).collection_stats.adaptive_interval ≡ max_interval
unfolding perform_all perform
failures-interval ((n₁, e₁) ∷ (n₂, e₂) ∷ ts) s v h =
    let s₁ = (run_adaptive_collection n₁ e₁ raised s).1 in
    let s₂ = (run_adaptive_collection n₂ e₂ raised s₁).1 in
    let v₁ = perform_all-IsValid (failures ((n₁, e₁) ∷ (n₂, e₂) ∷ [])) s v in
    let (c₁, _, _) = failure_step n₁ e₁ s in
    let (c₂, _, _) = failure_step n₂ e₂ s₁ in
    let bound = failures-slower ts min_interval s₂ (omega arith) v₁.interval_low in
    let top = perform_all-IsValid (failures ((n₁, e₁) ∷ (n₂, e₂) ∷ ts)) s v in
    let last = perform_all (failures ts) s₂ in
    let seven : length ts ≡ 7 = omega arith in
    let high : max_interval ≤ last.collection_stats.adaptive_interval =
      subst (λ n. slower_than n min_interval ≤ last.collection_stats.adaptive_interval) seven
        bound in
    omega (arith, top.interval_high)
failures-interval ts s v h = absurd (omega arith)
