-- ===== src/Scheduler/Collections.antt =====
-- The daily collection (collector/scheduler/scheduled.py) and the manual one
-- (collector/scheduler/manual.py), with what they record. `save` is `save_blacklist_ips` on the
-- table of addresses, what the collector gives is an argument, and `breaks` says that recording
-- the history raises in the database.
mod Tests
pub mod Records
use blacklist.Prelude.{
  ℕ, Bool, true, false, ◌||◌, Option, none, some, List, [], ◌∷◌, String, if◌then◌else◌,
}
use blacklist.Prelude.Python.{empty_text}
use blacklist.Storage.{Item, Table}
use blacklist.Storage.Insert.{Saved}
use blacklist.Storage.History.{
  Tables, Config, history_row, record_collection_history, save_initial_collection_state,
}

pub record Database : Type 0 where
  pub addresses : Table
  pub tables : Tables

-- `collect_blacklist_data`: its items, or an exception with its text.
pub data Collected : Type 0 where
  found : List Item → Collected
  raises : String → Collected

-- What `authenticate` answers, or the text of its exception.
pub data Login : Type 0 where
  answers : Bool → Login
  login_raises : String → Login

pub record Credentials : Type 0 where
  pub username : String
  pub password : String
  pub enabled : Bool

-- The dictionary that `collect_regtech_data` returns.
pub record Reply : Type 0 where
  pub success : Bool
  pub collected_count : ℕ
  pub new_count : ℕ
  pub updated_count : ℕ

abbrev pub unsuccessful : Reply
unsuccessful = record { success = false; collected_count = 0; new_count = 0; updated_count = 0 }

abbrev pub nothing_saved : Saved
nothing_saved = record { total = 0; new_count = 0; updated_count = 0 }

module _ (save : List Item → Table → Saved × Table) (breaks : Bool) (elapsed : ℕ) where
  unfoldable pub record_success : Saved → Database → Database
  record_success saved db = record db {
    tables =
        record_collection_history breaks
          (history_row "REGTECH" true saved.total elapsed none saved.new_count saved.updated_count)
          db.tables;
  }

  unfoldable pub record_error : String → Database → Database
  record_error message db = record db {
    tables =
        record_collection_history breaks (history_row "REGTECH" false 0 elapsed (some message) 0 0)
          db.tables;
  }

  -- `if collected_data: save_blacklist_ips(...)`
  unfoldable pub save_found : List Item → Database → Saved × Database
  save_found [] db = (nothing_saved, db)
  save_found (item ∷ items) db =
      let (saved, addresses) = save (item ∷ items) db.addresses in
      (saved, record db { addresses = addresses })

  unfoldable pub after_daily : Collected → Database → Database
  after_daily (found []) db = db
  after_daily (found (item ∷ items)) db =
      let (saved, db₁) = save_found (item ∷ items) db in record_success saved db₁
  after_daily (raises message) db = record_error message db

  unfoldable pub run_daily_collection : Option Credentials → Collected → Database → Database
  run_daily_collection none collected db = db
  run_daily_collection (some credentials) collected db =
      if credentials.enabled then after_daily collected db else db

  unfoldable pub after_manual : Collected → Database → Reply × Database
  after_manual (found items) db =
      let (saved, db₁) = save_found items db in
      (
        record {
          success = true;
          collected_count = saved.total;
          new_count = saved.new_count;
          updated_count = saved.updated_count;
        },
        record_success saved db₁,
      )
  after_manual (raises message) db = (unsuccessful, record_error message db)

  unfoldable pub collect_regtech_data : Login → Collected → Database → Reply × Database
  collect_regtech_data (login_raises message) collected db = (unsuccessful, record_error message db)
  collect_regtech_data (answers authenticated) collected db =
      if authenticated then after_manual collected db else (unsuccessful, db)

  unfoldable pub run_manual_collection :
      Option Credentials → Login → Collected → Database → Database
  run_manual_collection none authenticated collected db = db
  run_manual_collection (some credentials) authenticated collected db =
      let (reply, db₁) = collect_regtech_data authenticated collected db in
      if empty_text credentials.username || empty_text credentials.password then db else db₁
