-- ===== src/Scheduler/Collections/Tests.antt =====
-- A daily run that fails, one that collects an address, and a manual one.
use blacklist.Prelude.{◌≢◌, refl, true, false, none, some, List, [], ◌∷◌, arith, length}
use blacklist.Prelude.Dict.{lookup}
use blacklist.Storage.{Item, Table}
use blacklist.Storage.Insert.{Saved}
use blacklist.Storage.History.{in_progress}
use blacklist.Storage.History.Counts.{IsCounted, runs_of}
use blacklist.Scheduler.Collections.{Database, found, raises, Credentials, Login, answers}
use blacklist.Scheduler.Collections.Records.{
  Job, daily, manual, saves_state, perform_all, perform_all-IsCounted,
}

abbrev save : List Item → Table → Saved × Table
save items t = (record { total = length items; new_count = length items; updated_count = 0 }, t)

abbrev address : Item
address = record {
  ip_address = "203.0.113.7";
  reason = none;
  source = none;
  confidence_level = none;
  detection_count = none;
  is_active = none;
  detection_date = none;
  removal_date = none;
  country = none;
  data_source = none;
}

abbrev fresh : Database
fresh = record {
  addresses = record { rows = []; next_id = 1 };
  tables = record { history = []; statuses = [] };
}

abbrev kim : Credentials
kim = record { username = "kim"; password = "secret"; enabled = true }

abbrev jobs : List Job
jobs =
    daily false 10 (some kim) (raises "timeout")
    ∷ daily false 11 (some kim) (found (address ∷ []))
    ∷ saves_state false (in_progress "2026-01-02")
    ∷ manual true 9 (some kim) (answers true) (found [])
    ∷ []

fresh-IsCounted : IsCounted fresh.tables
unfolding IsCounted lookup runs_of
fresh-IsCounted service = (refl, refl)

perform_all-IsCounted_example : IsCounted (perform_all save jobs fresh).tables
perform_all-IsCounted_example = perform_all-IsCounted save jobs fresh fresh-IsCounted

not_refused : ◌≢◌ {A = Login} (answers true) (answers false)
not_refused = λ e. ground arith
