-- ===== src/Scheduler/Force/Exclusion.antt =====
-- Threads that call `force_collection` (collector/scheduler/manager.py), step by step: each passes
-- the first locked section, collects for as long as it takes, and passes the second.
use blacklist.Prelude.{
  ℕ, ◌+◌, ◌-◌, ◌≤◌, ◌<◌, ◌≡◌, ◌↔◌, Bool, true, false, none, some, String, arith, str_eq, eq_iff,
  if◌then◌else◌, Bool-cases, inl, inr,
}
use blacklist.Scheduler.Adaptive.{Credentials}
use blacklist.Scheduler.Force.{
  Active, set_active, enter, leave, force_collection, Stored, Collection,
}

-- The shared set, and how many threads are collecting from each source.
pub record Threads : Type 0 where
  pub active : Active
  pub collecting : String → ℕ

abbrev update : String → ℕ → (String → ℕ) → String → ℕ
update k n f j = if str_eq k j then n else f j

pub data Step : Threads → Threads → Type 0 where
  enters :
      (t : Threads) (source : String) (active : Active)
      → enter source t.active ≡ some active
      → Step t (record {
        active = active;
        collecting = update source (t.collecting source + 1) t.collecting;
      })
  is_refused : (t : Threads) (source : String) → enter source t.active ≡ none → Step t t
  leaves :
      (t : Threads) (source : String)
      → 0 < t.collecting source
      → Step t (record {
        active = leave source t.active;
        collecting = update source (t.collecting source - 1) t.collecting;
      })

pub data Reach (s : Threads) : Threads → Type 0 where
  here : Reach s s
  next : {t u : Threads} → Reach s t → Step t u → Reach s u

abbrev one_if : Bool → ℕ
one_if true = 1
one_if false = 0

-- The set says exactly which sources are being collected, each by one thread.
pub record IsExclusive (t : Threads) : Type 0 where
  pub counts : (source : String) → t.collecting source ≡ one_if (t.active source)

-- Entering a source that is not active marks it, and no other.
enter-set :
    (source : String) (active active' : Active)
    → enter source active ≡ some active'
    → (active source ≡ false) × (active' ≡ set_active source true active)
unfolding enter
enter-set source active active' e = elim (Bool-cases (active source)) [
  | inl busy ↦ absurd (ground arith)
  | inr free ↦ (free, ground arith)
]

Step-IsExclusive : {t u : Threads} → Step t u → IsExclusive t → IsExclusive u
unfolding leave set_active
Step-IsExclusive (enters t source active e) x =
    let (free, set) = enter-set source t.active active e in
    record { counts = λ j. rw set (ground (arith, x.counts source, x.counts j, eq_iff source j)) }
Step-IsExclusive (is_refused t source e) x = x
Step-IsExclusive (leaves t source h) x = record {
  counts = λ j. ground (arith, x.counts source, x.counts j, eq_iff source j);
}

Reach-IsExclusive : {s t : Threads} → IsExclusive s → Reach s t → IsExclusive t
Reach-IsExclusive x here = x
Reach-IsExclusive x (next r st) = Step-IsExclusive st (Reach-IsExclusive x r)

-- From a state in which the set of active sources is right, however the threads interleave, a
-- source is collected by at most one of them at a time, and a request is refused exactly while one
-- of them is at it.
pub Reach-exclusive :
    {s t : Threads} (source : String)
    → IsExclusive s
    → Reach s t
    → (t.collecting source ≤ 1) × ((enter source t.active ≡ none) ↔ (0 < t.collecting source))
unfolding enter
Reach-exclusive source x r =
    let y = (Reach-IsExclusive x r).counts source in
    (ground (arith, y), (λ h. ground (arith, y), λ h. ground (arith, y)))

-- A call that is not refused leaves the set as it found it, however the collection ends.
pub force_collection-active :
    (source other : String) (stored : Stored) (collect : Credentials → Collection) (active : Active)
    → (force_collection source stored collect active).1 other ≡ active other
unfolding force_collection enter leave set_active
force_collection-active source other stored collect active = elim (Bool-cases (active source)) [
  | inl busy ↦ ground arith
  | inr free ↦ ground (arith, eq_iff source other)
]
