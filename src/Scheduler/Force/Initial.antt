-- ===== src/Scheduler/Force/Initial.antt =====
-- When the job `_initial_collection` of collector/scheduler/manager.py ends.
use blacklist.Prelude.{
  ℕ, ◌+◌, ◌<◌, ◌≤◌, ◌≡◌, ◌≢◌, ◌⊎◌, refl, Bool, true, false, none, some, Bool-cases, inl, inr, arith,
}
use blacklist.Scheduler.Adaptive.{Credentials}
use blacklist.Scheduler.Backfill.{InitialState, no_state, skipped, complete, in_progress}
use blacklist.Scheduler.Force.{
  Active, enter, force_collection, collect_source, Stored, found, query_raises, Collection,
  succeeded, unsuccessful, raises, Reply, done, already_running, no_credentials,
  collection_disabled, invalid_credentials, unknown_source, failed, job_result, keep, cancel_job,
  reply_of, Progress, after_backfill, with_credentials, by_state, initial_collection,
  initial_collection_retry_seconds, Faults, retry_later,
}

-- The backfill succeeded with the credentials that are stored and enabled.
abbrev pub Succeeded : Stored → (Credentials → Collection) → Type 0
Succeeded stored backfill =
    (c : Credentials) × (n : ℕ) × (stored ≡ found (some c))
    × (c.enabled ≡ true)
    × (backfill c ≡ succeeded n)

-- Only a successful collection is answered as done.
reply_of-done : (c : Collection) (n : ℕ) → reply_of c ≡ done n → c ≡ succeeded n
reply_of-done (succeeded m) n h = ground arith
reply_of-done unsuccessful n h = ground arith
reply_of-done raises n h = ground arith

force_collection-done :
    (c : Credentials) (backfill : Credentials → Collection) (active : Active) (n : ℕ)
    → (force_collection "REGTECH" (found (some c)) backfill active).0 ≡ done n
    → backfill c ≡ succeeded n
unfolding force_collection collect_source enter
force_collection-done c backfill active n h = reply_of-done (backfill c) n (ground arith)

-- A reply that cancels the job comes from a collection that succeeded.
job_result-succeeded :
    (c : Credentials) (backfill : Credentials → Collection) (active : Active) (r : Reply)
    → (force_collection "REGTECH" (found (some c)) backfill active).0 ≡ r
    → job_result r ≡ cancel_job
    → (n : ℕ) × (backfill c ≡ succeeded n)
job_result-succeeded c backfill active (done n) e h =
    (n, force_collection-done c backfill active n e)
job_result-succeeded c backfill active already_running e h = ground arith
job_result-succeeded c backfill active no_credentials e h = ground arith
job_result-succeeded c backfill active collection_disabled e h = ground arith
job_result-succeeded c backfill active invalid_credentials e h = ground arith
job_result-succeeded c backfill active unknown_source e h = ground arith
job_result-succeeded c backfill active failed e h = ground arith

with_credentials-cancel :
    (now : ℕ) (stored : Stored) (backfill : Credentials → Collection) (left : InitialState)
    (p : Progress)
    → (with_credentials now stored backfill left p).0 ≡ cancel_job
    → Succeeded stored backfill
unfolding with_credentials after_backfill retry_later
with_credentials-cancel now query_raises backfill left p h = ground arith
with_credentials-cancel now (found none) backfill left p h = ground arith
with_credentials-cancel now (found (some c)) backfill left p h = elim (Bool-cases c.enabled) [
  | inr off ↦ absurd (ground arith)
  | inl on ↦
      let (n, e) =
        job_result-succeeded c backfill p.active
          (force_collection "REGTECH" (found (some c)) backfill p.active).0 refl (ground arith) in
      (c, n, refl, on, e)
]

-- The retry time stays, or is an hour from now.
with_credentials-retry_at :
    (now : ℕ) (stored : Stored) (backfill : Credentials → Collection) (left : InitialState)
    (p : Progress)
    → ((with_credentials now stored backfill left p).1.initial_retry_at ≡ p.initial_retry_at)
      ⊎ ((with_credentials now stored backfill left p).1.initial_retry_at
          ≡ now + initial_collection_retry_seconds)
unfolding with_credentials after_backfill retry_later
with_credentials-retry_at now stored backfill left p = ground arith

initial_collection-retry_at :
    (now : ℕ) (faults : Faults) (has_data : Bool) (stored : Stored)
    (backfill : Credentials → Collection) (left : InitialState) (p : Progress)
    → ((initial_collection now faults has_data stored backfill left p).1.initial_retry_at
        ≡ p.initial_retry_at)
      ⊎ ((initial_collection now faults has_data stored backfill left p).1.initial_retry_at
          ≡ now + initial_collection_retry_seconds)
unfolding initial_collection by_state retry_later
initial_collection-retry_at now faults has_data stored backfill left p =
    ground (arith, with_credentials-retry_at now stored backfill left p)

initial_collection_early :
    (now : ℕ) (faults : Faults) (has_data : Bool) (stored : Stored)
    (backfill : Credentials → Collection) (left : InitialState) (p : Progress)
    → now < p.initial_retry_at
    → initial_collection now faults has_data stored backfill left p ≡ (keep, p)
unfolding initial_collection
initial_collection_early now faults has_data stored backfill left p early = ground arith

-- A first collection that is still to be done: it has begun, or no state is stored and there is no
-- older data.
abbrev pub IsPending : Faults → Bool → InitialState → Type 0
IsPending faults has_data state =
    ((day : ℕ) × (state ≡ in_progress day))
    ⊎ ((state ≡ no_state) × (faults.data_raises ≡ false) × (has_data ≡ false))

InitialState-cases :
    (state : InitialState)
    → ((state ≡ complete) ⊎ (state ≡ skipped))
      ⊎ ((state ≡ no_state) ⊎ ((day : ℕ) × (state ≡ in_progress day)))
InitialState-cases complete = inl (inl refl)
InitialState-cases skipped = inl (inr refl)
InitialState-cases no_state = inr (inl refl)
InitialState-cases (in_progress day) = inr (inr (day, refl))

-- The job is over only at a call that is due, while no collection of the source is at work and the
-- read of the state does not raise, and only when the first collection is over: its state is final
-- already; or no state is stored, there is older data, and `skipped` is saved; or it was still to
-- be done, and the backfill has just succeeded with the stored credentials, which are enabled.
pub initial_collection_ends :
    (now : ℕ) (faults : Faults) (has_data : Bool) (stored : Stored)
    (backfill : Credentials → Collection) (left : InitialState) (p : Progress)
    → (initial_collection now faults has_data stored backfill left p).0 ≡ cancel_job
    → (p.initial_retry_at ≤ now)
      × (p.active "REGTECH" ≡ false)
      × (faults.state_raises ≡ false)
      × (((p.state ≡ complete) ⊎ (p.state ≡ skipped))
          ⊎ (((p.state ≡ no_state)
                × (faults.data_raises ≡ false)
                × (has_data ≡ true)
                × (faults.save_raises ≡ false)
                × ((initial_collection now faults has_data stored backfill left p).1.state
                    ≡ skipped))
              ⊎ (IsPending faults has_data p.state × Succeeded stored backfill)))
unfolding initial_collection by_state retry_later
initial_collection_ends now faults has_data stored backfill left p h =
    elim (InitialState-cases p.state) [
      | inl e ↦ (ground arith, ground arith, ground arith, inl e)
      | inr (inl e) ↦ ground (arith, with_credentials-cancel now stored backfill left p)
      | inr (inr (day, e)) ↦
          let done = with_credentials-cancel now stored backfill left p in
          (ground arith, ground arith, ground arith, inr (inr (inl (day, e), ground (arith, done))))
    ]

-- Once the time of the next try has been moved, as it is when a backfill fails or the credentials
-- cannot be read, no call does anything for an hour.
pub initial_collection_waits :
    (now later : ℕ) (faults faults' : Faults) (has_data has_data' : Bool) (stored stored' : Stored)
    (backfill : Credentials → Collection) (left left' : InitialState) (p : Progress)
    → (initial_collection now faults has_data stored backfill left p).1.initial_retry_at
      ≢ p.initial_retry_at
    → later < now + initial_collection_retry_seconds
    → initial_collection later faults' has_data' stored' backfill left'
        (initial_collection now faults has_data stored backfill left p).1
      ≡ (keep, (initial_collection now faults has_data stored backfill left p).1)
initial_collection_waits now later faults faults' has_data has_data' stored stored' backfill left
      left' p h before =
    let next = (initial_collection now faults has_data stored backfill left p).1 in
    initial_collection_early later faults' has_data' stored' backfill left' next
      (ground (arith, initial_collection-retry_at now faults has_data stored backfill left p))
