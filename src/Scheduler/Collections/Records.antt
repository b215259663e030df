-- ===== src/Scheduler/Collections/Records.antt =====
-- What collections record, together with the state of the first collection.
use blacklist.Prelude.{
  ℕ, ◌≡◌, ◌≢◌, refl, Bool, true, false, Option, none, some, List, [], ◌∷◌, String, if◌then◌else◌,
}
use blacklist.Storage.{Item, Table}
use blacklist.Storage.Insert.{Saved}
use blacklist.Storage.History.{
  Config, HistoryRow, history_row, record_collection_history, in_transaction,
  save_initial_collection_state,
}
use blacklist.Storage.History.Counts.{
  IsCounted, record_collection_history-IsCounted, save_initial_collection_state-IsCounted,
}
use blacklist.Scheduler.Collections.{
  Database, Collected, found, raises, Credentials, Reply, Login, answers, login_raises,
  record_success, record_error, save_found, after_daily, run_daily_collection, after_manual,
  collect_regtech_data, run_manual_collection,
}

-- A run of the scheduler with what it meets: whether recording raises, the time it takes, the
-- credentials, the login and what is collected.
pub data Job : Type 0 where
  daily : Bool → ℕ → Option Credentials → Collected → Job
  manual : Bool → ℕ → Option Credentials → Login → Collected → Job
  saves_state : Bool → Config → Job

module _ (save : List Item → Table → Saved × Table) where
  unfoldable pub perform : Job → Database → Database
  perform (daily breaks elapsed credentials collected) db =
      run_daily_collection save breaks elapsed credentials collected db
  perform (manual breaks elapsed credentials authenticated collected) db =
      run_manual_collection save breaks elapsed credentials authenticated collected db
  perform (saves_state breaks state) db = record db {
    tables = (save_initial_collection_state breaks state db.tables).1;
  }

  unfoldable pub perform_all : List Job → Database → Database
  perform_all [] db = db
  perform_all (job ∷ jobs) db = perform_all jobs (perform job db)

  module _ (breaks : Bool) (elapsed : ℕ) where
    record_success-IsCounted :
        (saved : Saved) (db : Database)
        → IsCounted db.tables
        → IsCounted (record_success save breaks elapsed saved db).tables
    unfolding record_success
    record_success-IsCounted saved db h = record_collection_history-IsCounted breaks _ db.tables h

    record_error-IsCounted :
        (message : String) (db : Database)
        → IsCounted db.tables
        → IsCounted (record_error save breaks elapsed message db).tables
    unfolding record_error
    record_error-IsCounted message db h = record_collection_history-IsCounted breaks _ db.tables h

    save_found-tables :
        (items : List Item) (db : Database)
        → (save_found save breaks elapsed items db).1.tables ≡ db.tables
    unfolding save_found
    save_found-tables [] db = refl
    save_found-tables (item ∷ items) db = refl

    after_daily-IsCounted :
        (collected : Collected) (db : Database)
        → IsCounted db.tables
        → IsCounted (after_daily save breaks elapsed collected db).tables
    unfolding after_daily save_found
    after_daily-IsCounted (found []) db h = h
    after_daily-IsCounted (found (item ∷ items)) db h = record_success-IsCounted _ _ h
    after_daily-IsCounted (raises message) db h = record_error-IsCounted message db h

    after_manual-IsCounted :
        (collected : Collected) (db : Database)
        → IsCounted db.tables
        → IsCounted (after_manual save breaks elapsed collected db).1.tables
    unfolding after_manual save_found
    after_manual-IsCounted (found []) db h = record_success-IsCounted _ _ h
    after_manual-IsCounted (found (item ∷ items)) db h = record_success-IsCounted _ _ h
    after_manual-IsCounted (raises message) db h = record_error-IsCounted message db h

  choose-IsCounted :
      (b : Bool) (x y : Database)
      → IsCounted x.tables
      → IsCounted y.tables
      → IsCounted (if b then x else y).tables
  choose-IsCounted true x y h k = h
  choose-IsCounted false x y h k = k

  perform-IsCounted :
      (job : Job) (db : Database) → IsCounted db.tables → IsCounted (perform job db).tables
  unfolding perform run_daily_collection run_manual_collection collect_regtech_data
  perform-IsCounted (daily breaks elapsed none collected) db h = h
  perform-IsCounted (daily breaks elapsed (some credentials) collected) db h =
      choose-IsCounted credentials.enabled _ db
        (after_daily-IsCounted breaks elapsed collected db h) h
  perform-IsCounted (manual breaks elapsed none authenticated collected) db h = h
  perform-IsCounted (manual breaks elapsed (some credentials) (login_raises message) collected) db
        h =
      choose-IsCounted _ db _ h (record_error-IsCounted breaks elapsed message db h)
  perform-IsCounted (manual breaks elapsed (some credentials) (answers true) collected) db h =
      choose-IsCounted _ db _ h (after_manual-IsCounted breaks elapsed collected db h)
  perform-IsCounted (manual breaks elapsed (some credentials) (answers false) collected) db h =
      choose-IsCounted _ db _ h h
  perform-IsCounted (saves_state breaks state) db h =
      save_initial_collection_state-IsCounted breaks state db.tables h

  -- Over any sequence of daily and manual collections and of saves of the first collection's state,
  -- whatever of them fails: if the counters of the services are the numbers of their failed and
  -- successful runs in the history, they are so afterwards.
  pub perform_all-IsCounted :
      (jobs : List Job) (db : Database)
      → IsCounted db.tables
      → IsCounted (perform_all jobs db).tables
  unfolding perform_all
  perform_all-IsCounted [] db h = h
  perform_all-IsCounted (job ∷ jobs) db h =
      perform_all-IsCounted jobs (perform job db) (perform-IsCounted job db h)

-- The newest row of the history says what the reply says.
pub record Reported (reply : Reply) (before after : List HistoryRow) : Type 0 where
  pub row : HistoryRow
  pub newest : after ≡ row ∷ before
  pub same_success : row.success ≡ reply.success
  pub same_items : row.items_collected ≡ reply.collected_count
  pub same_new : row.new_count ≡ reply.new_count
  pub same_updated : row.updated_count ≡ reply.updated_count

module _ (save : List Item → Table → Saved × Table) (elapsed : ℕ) where
  after_manual-Reported :
      (collected : Collected) (db : Database)
      → let (reply, db') = after_manual save false elapsed collected db in
        Reported reply db.tables.history db'.tables.history
  unfolding after_manual save_found record_success record_error record_collection_history
      in_transaction history_row
  after_manual-Reported (found []) db = record {
    row = history_row "REGTECH" true 0 elapsed none 0 0;
    newest = refl;
    same_success = refl;
    same_items = refl;
    same_new = refl;
    same_updated = refl;
  }
  after_manual-Reported (found (item ∷ items)) db =
      let saved = (save (item ∷ items) db.addresses).0 in
      record {
        row =
            history_row "REGTECH" true saved.total elapsed none saved.new_count saved.updated_count;
        newest = refl;
        same_success = refl;
        same_items = refl;
        same_new = refl;
        same_updated = refl;
      }
  after_manual-Reported (raises message) db = record {
    row = history_row "REGTECH" false 0 elapsed (some message) 0 0;
    newest = refl;
    same_success = refl;
    same_items = refl;
    same_new = refl;
    same_updated = refl;
  }

  -- A manual collection whose login is not refused adds one row to the history, and it has the
  -- outcome and the counts of the reply, whether the collector gave items, none, or raised.
  pub collect_regtech_data-Reported :
      (login : Login) (collected : Collected) (db : Database)
      → login ≢ answers false
      → let (reply, db') = collect_regtech_data save false elapsed login collected db in
        Reported reply db.tables.history db'.tables.history
  unfolding collect_regtech_data after_manual record_error
  collect_regtech_data-Reported (answers true) collected db ok = after_manual-Reported collected db
  collect_regtech_data-Reported (answers false) collected db ok = absurd (ok refl)
  collect_regtech_data-Reported (login_raises message) collected db ok =
      after_manual-Reported (raises message) db
