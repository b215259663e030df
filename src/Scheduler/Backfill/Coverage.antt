-- ===== src/Scheduler/Backfill/Coverage.antt =====
-- Which days a backfill collects, in one run.
use blacklist.Prelude.{
  ℕ, suc, ◌+◌, ◌-◌, ◌≤◌, ◌<◌, ◌≡◌, refl, true, false, Option, none, some, arith, Bool, ◌⊎◌,
  Bool-cases, inl, inr,
}
use blacklist.Scheduler.Backfill.Windows.{StoppedAt, Collects, collect_windows-Collects}
use blacklist.Scheduler.Backfill.Days.{holds, times}
use blacklist.Scheduler.Backfill.{
  InitialState, in_progress, complete, Database, Outcome, finished, failed, authentication_failed,
  out_of_fuel, first_end, save_state, fail_run, collect_windows, collect_regtech_backfill,
  backfill_days,
}

module _ (collect : ℕ → ℕ → Option ℕ) (saved : InitialState → Bool) (oldest : ℕ) where
  -- A run that ends has each day of its range in one window more than before. One that raises
  -- before its first checkpoint changes neither the windows nor the state; one that raises later
  -- has the days down to some day, and a checkpoint from which a further run starts.
  abbrev pub Covers : Bool → Option Bool → ℕ → ℕ → Database → Outcome × Database → Type 0
  Covers read_raises login window_end d db (finished n, db') =
      (times d db'.windows ≡ times d db.windows + holds oldest window_end d)
      × (db'.initial ≡ complete)
      × (login ≡ some true)
  Covers read_raises login window_end d db (failed n, db') =
      ((db'.initial ≡ db.initial)
        × (db'.windows ≡ db.windows)
        × ((read_raises ≡ true) ⊎ ((login ≡ none) ⊎ (saved (in_progress window_end) ≡ false))))
      ⊎ StoppedAt collect saved oldest window_end d db db'
  Covers read_raises login window_end d db (authentication_failed, db') =
      (login ≡ some false) × (db' ≡ db)
  Covers read_raises login window_end d db (out_of_fuel, db') = ⊥

  Collects-Covers :
      (window_end d : ℕ) (db : Database) (r : Outcome × Database)
      → Collects collect saved oldest window_end d (save_state (in_progress window_end) db) r
      → Covers false (some true) window_end d db r
  unfolding save_state
  Collects-Covers window_end d db (finished n, db') (c, e) = (c, e, refl)
  Collects-Covers window_end d db (failed n, db') c = inr c
  Collects-Covers window_end d db (authentication_failed, db') c = absurd c
  Collects-Covers window_end d db (out_of_fuel, db') c = c

-- A run with a login, by the save of its first checkpoint.
module _ (collect : ℕ → ℕ → Option ℕ) (saved : InitialState → Bool) (today : ℕ)
    (db : Database) where
  unstarted :
      saved (in_progress (first_end db.initial today)) ≡ false
      → collect_regtech_backfill collect saved false (some true) today db ≡ fail_run 0 db
  unfolding collect_regtech_backfill
  unstarted off = ground arith

  started :
      saved (in_progress (first_end db.initial today)) ≡ true
      → collect_regtech_backfill collect saved false (some true) today db
        ≡ collect_windows collect saved
            (today - backfill_days)
            (suc (suc today))
            (first_end db.initial today)
            0
            (save_state (in_progress (first_end db.initial today)) db)
  unfolding collect_regtech_backfill
  started on = ground arith

-- A run on a day more than 90 days after the first one and not before the checkpoint, whatever
-- raises. If it succeeds, the login was accepted, each day from 90 days ago to the checkpoint, or
-- to today where there is none, is in exactly one window more, no other day is, and the state says
-- complete. If it fails, either the read of the state, the login or the first checkpoint raised,
-- and neither the windows nor the state changed; or there is a day, in that range, just before it,
-- or the range's end where it is empty, such that exactly the days of the range after that day are
-- in one window more, the checkpoint is that day or at most 7 days later, and what raised is the
-- window that ends on it, its own save as the checkpoint, or the save of the final state. A refused
-- login changes nothing. There is no other outcome.
pub backfill-Covers :
    (collect : ℕ → ℕ → Option ℕ) (saved : InitialState → Bool) (read_raises : Bool)
    (login : Option Bool) (today d : ℕ) (db : Database)
    → backfill_days < today
    → first_end db.initial today ≤ today
    → Covers collect saved
        (today - backfill_days)
        read_raises
        login
        (first_end db.initial today)
        d
        db
        (collect_regtech_backfill collect saved read_raises login today db)
unfolding collect_regtech_backfill fail_run save_state
backfill-Covers collect saved true login today d db pos past = inl (refl, refl, inl refl)
backfill-Covers collect saved false none today d db pos past = inl (refl, refl, inr (inl refl))
backfill-Covers collect saved false (some false) today d db pos past = (refl, refl)
backfill-Covers collect saved false (some true) today d db pos past =
    let window_end = first_end db.initial today in
    let oldest = today - backfill_days in
    elim (Bool-cases (saved (in_progress window_end))) [
      | inr off ↦ rw (unstarted collect saved today db off) (inl (refl, refl, inr (inr off)))
      | inl on ↦ rw (started collect saved today db on) (
          Collects-Covers collect saved oldest window_end d db _ (
            collect_windows-Collects collect saved oldest (suc (suc today)) window_end 0 d
              (save_state (in_progress window_end) db) (omega arith) (omega arith) refl))
    ]
