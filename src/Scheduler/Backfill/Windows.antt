-- ===== src/Scheduler/Backfill/Windows.antt =====
-- Which days the loop over the windows of a backfill collects.
use blacklist.Prelude.{
  ℕ, zero, suc, ◌+◌, ◌-◌, ◌≤◌, ◌<◌, ◌≡◌, refl, true, false, Option, none, some, [], ◌∷◌, leb,
  leb→le, leb→lt, arith, Bool, ◌⊎◌, max, Bool-cases, Option-cases, inl, inr,
}
use blacklist.Scheduler.Backfill.Days.{holds, times, times-append, holds-split, holds_empty}
use blacklist.Scheduler.Backfill.{
  InitialState, in_progress, complete, Database, Outcome, finished, failed, authentication_failed,
  out_of_fuel, window_from, save_window, save_state, fail_run, collect_windows,
  backfill_window_days,
}

module _ (collect : ℕ → ℕ → Option ℕ) (saved : InitialState → Bool) (oldest : ℕ) where
  -- What may end a run of the windows early, once the days from `suc q` on are saved: the window
  -- that ends at `q`, the save of `q` as the checkpoint, or that of the final state.
  abbrev pub Raises : ℕ → Type 0
  Raises q =
      (collect (window_from oldest q) q ≡ none)
      ⊎ ((saved (in_progress q) ≡ false) ⊎ (saved complete ≡ false))

  -- The days from `suc q` on are saved, and the checkpoint is at most a window behind.
  abbrev pub StoppedAt : ℕ → ℕ → Database → Database → Type 0
  StoppedAt window_end d db db' =
      (p : ℕ) × (q : ℕ) × (db'.initial ≡ in_progress p)
      × (q ≤ p)
      × (p ≤ q + backfill_window_days)
      × (p ≤ window_end)
      × ((oldest ≤ suc q) ⊎ (q ≡ window_end))
      × (times d db'.windows ≡ times d db.windows + holds (suc q) window_end d)
      × Raises q

  abbrev pub Collects : ℕ → ℕ → Database → Outcome × Database → Type 0
  Collects window_end d db (finished n, db') =
      (times d db'.windows ≡ times d db.windows + holds oldest window_end d)
      × (db'.initial ≡ complete)
  Collects window_end d db (failed n, db') = StoppedAt window_end d db db'
  Collects window_end d db (authentication_failed, db') = ⊥
  Collects window_end d db (out_of_fuel, db') = ⊥

window_from_bounds :
    (oldest window_end : ℕ)
    → oldest ≤ window_end
    → (oldest ≤ window_from oldest window_end) × (window_from oldest window_end ≤ window_end)
unfolding window_from
window_from_bounds oldest window_end h = omega arith

module _ (collect : ℕ → ℕ → Option ℕ) (saved : InitialState → Bool) (oldest : ℕ) where
  Collects-save_window :
      (start window_end d : ℕ) (db : Database) (r : Outcome × Database)
      → 0 < oldest
      → oldest ≤ start
      → start ≤ window_end
      → Collects collect saved oldest
          (start - 1)
          d
          (save_state (in_progress (start - 1)) (save_window start window_end db))
          r
      → Collects collect saved oldest window_end d db r
  unfolding save_window save_state times
  Collects-save_window start window_end d db (finished n, db') pos h k (c, e) = (
    omega (
      arith,
      times-append d db.windows (record { window_start = start; window_end = window_end } ∷ []),
      holds-split oldest start window_end d (omega arith) h k,
    ),
    e,
  )
  Collects-save_window start window_end d db (failed n, db') pos h k
        (p, q, e, le, near, hi, lo, c, cause) =
      (
        p,
        q,
        e,
        le,
        near,
        omega arith,
        inl (omega arith),
        omega (
          arith,
          times-append d db.windows (record { window_start = start; window_end = window_end } ∷ []),
          holds-split (suc q) start window_end d (omega arith) (omega arith) k,
        ),
        cause,
      )
  Collects-save_window start window_end d db (authentication_failed, db') pos h k c = c
  Collects-save_window start window_end d db (out_of_fuel, db') pos h k c = c

  -- A window is saved, and the checkpoint behind it is not.
  unsaved-Collects :
      (window_end n d : ℕ) (db : Database)
      → 0 < oldest
      → oldest ≤ window_end
      → db.initial ≡ in_progress window_end
      → saved (in_progress (window_from oldest window_end - 1)) ≡ false
      → Collects collect saved oldest window_end d db
          (fail_run n (save_window (window_from oldest window_end) window_end db))
  unfolding fail_run save_window times window_from
  unsaved-Collects window_end n d db pos more at off =
      let start = max oldest (window_end - (backfill_window_days - 1)) in
      (
        window_end,
        start - 1,
        at,
        omega arith,
        omega arith,
        omega arith,
        inl (omega arith),
        ground (
          arith,
          times-append d db.windows (record { window_start = start; window_end = window_end } ∷ []),
        ),
        inr (inl off),
      )

  -- Nothing more is saved.
  stopped-Collects :
      (window_end n d : ℕ) (db : Database)
      → db.initial ≡ in_progress window_end
      → Raises collect saved oldest window_end
      → Collects collect saved oldest window_end d db (fail_run n db)
  unfolding fail_run
  stopped-Collects window_end n d db at cause = (
    window_end,
    window_end,
    at,
    omega arith,
    omega arith,
    omega arith,
    inr refl,
    omega (arith, holds_empty (suc window_end) window_end d (omega arith)),
    cause,
  )

  -- A round by its tests.
  module _ (fuel window_end n : ℕ) (db : Database) where
    abbrev from : ℕ
    from = window_from oldest window_end

    finished_all :
        leb oldest window_end ≡ false
        → saved complete ≡ true
        → collect_windows collect saved oldest (suc fuel) window_end n db
          ≡ (finished n, save_state complete db)
    unfolding collect_windows
    finished_all over done = ground arith

    unfinished :
        leb oldest window_end ≡ false
        → saved complete ≡ false
        → collect_windows collect saved oldest (suc fuel) window_end n db ≡ fail_run n db
    unfolding collect_windows
    unfinished over off = ground arith

    raised :
        leb oldest window_end ≡ true
        → collect from window_end ≡ none
        → collect_windows collect saved oldest (suc fuel) window_end n db ≡ fail_run n db
    unfolding collect_windows
    raised more bad = ground arith

    unsaved :
        (count : ℕ)
        → leb oldest window_end ≡ true
        → collect from window_end ≡ some count
        → saved (in_progress (from - 1)) ≡ false
        → collect_windows collect saved oldest (suc fuel) window_end n db
          ≡ fail_run (n + count) (save_window from window_end db)
    unfolding collect_windows
    unsaved count more got off = ground arith

    saved_one :
        (count : ℕ)
        → leb oldest window_end ≡ true
        → collect from window_end ≡ some count
        → saved (in_progress (from - 1)) ≡ true
        → collect_windows collect saved oldest (suc fuel) window_end n db
          ≡ collect_windows collect saved oldest fuel
              (from - 1)
              (n + count)
              (save_state (in_progress (from - 1)) (save_window from window_end db))
    unfolding collect_windows
    saved_one count more got on = ground arith

  pub collect_windows-Collects :
      (fuel window_end n d : ℕ) (db : Database)
      → 0 < oldest
      → suc window_end - oldest < fuel
      → db.initial ≡ in_progress window_end
      → Collects collect saved oldest window_end d db
          (collect_windows collect saved oldest fuel window_end n db)
  unfolding save_state
  collect_windows-Collects zero window_end n d db pos enough at = absurd (omega arith)
  collect_windows-Collects (suc fuel) window_end n d db pos enough at =
      let start = window_from oldest window_end in
      elim (Bool-cases (leb oldest window_end)) [
        | inr over ↦ elim (Bool-cases (saved complete)) [
          | inl done ↦
              rw (finished_all fuel window_end n db over done)
                (omega (arith, holds_empty oldest window_end d (leb→lt _ _ over)), refl)
          | inr off ↦
              rw (unfinished fuel window_end n db over off)
                (stopped-Collects window_end n d db at (inr (inr off)))
        ]
        | inl more ↦ elim (Option-cases (collect start window_end)) [
          | inl bad ↦
              rw (raised fuel window_end n db more bad)
                (stopped-Collects window_end n d db at (inl bad))
          | inr (count, got) ↦
              let (lo, hi) = window_from_bounds oldest window_end (leb→le _ _ more) in
              elim (Bool-cases (saved (in_progress (start - 1)))) [
                | inr off ↦
                    rw (unsaved fuel window_end n db count more got off)
                      (unsaved-Collects window_end (n + count) d db pos (leb→le _ _ more) at off)
                | inl on ↦ rw (saved_one fuel window_end n db count more got on) (
                    Collects-save_window start window_end d db _ pos lo hi (
                      collect_windows-Collects fuel (start - 1) (n + count) d
                        (save_state (in_progress (start - 1)) (save_window start window_end db)) pos
                        (omega arith) refl))
              ]
        ]
      ]
