-- ===== src/Scheduler/Backfill/Days.antt =====
-- The days that windows hold.
use blacklist.Prelude.{
  ℕ, ◌+◌, ◌-◌, ◌≤◌, ◌<◌, ◌≡◌, ◌&&◌, List, [], ◌∷◌, ◌++◌, leb, arith, if◌then◌else◌,
}
use blacklist.Scheduler.Backfill.{Window}

abbrev pub holds : ℕ → ℕ → ℕ → ℕ
holds lo hi d = if leb lo d && leb d hi then 1 else 0

-- How many of the windows hold a day.
unfoldable pub times : ℕ → List Window → ℕ
times d [] = 0
times d (w ∷ ws) = holds w.window_start w.window_end d + times d ws

pub times-append : (d : ℕ) (xs ys : List Window) → times d (xs ++ ys) ≡ times d xs + times d ys
unfolding times
times-append d [] ys = omega arith
times-append d (w ∷ ws) ys = omega (arith, times-append d ws ys)

pub holds-split :
    (lo mid hi d : ℕ)
    → 0 < mid
    → lo ≤ mid
    → mid ≤ hi
    → holds lo (mid - 1) d + holds mid hi d ≡ holds lo hi d
holds-split lo mid hi d pos h k = ground arith

pub holds_empty : (lo hi d : ℕ) → hi < lo → holds lo hi d ≡ 0
holds_empty lo hi d h = ground arith
