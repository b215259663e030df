-- ===== src/IpManagement/Repository.antt =====
-- The writes of `IPManagementRepository`, app/core/routes/api/ip_management/repository.py, on the
-- tables `whitelist_ips` and `blacklist_ips`, and the columns of them that decisions read.
--
-- `breaks` says that the database raises, as it does where a check of the table fails:
-- `connection_lease` then rolls back. `id` is the primary key, so at most one row has it. The times
-- of the rows are left out.
use blacklist.Prelude.{
  ℕ, suc, ◌+◌, Bool, true, ◌&&◌, Option, none, some, String, List, [], ◌∷◌, str_eq, ◌==◌,
  if◌then◌else◌, map,
}
use blacklist.Storage.{coalesce}
use blacklist.Decision
use blacklist.IpManagement.{
  WhitelistCreate, BlacklistCreate, Change, set_ip_address, set_reason, set_source, set_data_source,
  set_country, set_confidence_level, set_detection_count, set_is_active, set_detection_date,
  set_removal_date,
}

pub record WhitelistEntry : Type 0 where
  pub id : ℕ
  pub ip_address : String
  pub reason : Option String
  pub source : Option String
  pub country : Option String
  pub is_active : Bool

pub record BlacklistEntry : Type 0 where
  pub id : ℕ
  pub ip_address : String
  pub reason : Option String
  pub source : String
  pub data_source : Option String
  pub confidence_level : Option ℕ
  pub detection_count : Option ℕ
  pub is_active : Bool
  pub country : Option String
  pub detection_date : Option ℕ
  pub removal_date : Option ℕ

-- The two tables and the sequences of their ids.
pub record Lists : Type 0 where
  pub whitelist : List WhitelistEntry
  pub blacklist : List BlacklistEntry
  pub next_whitelist_id : ℕ
  pub next_blacklist_id : ℕ

abbrev pub whitelist_row : WhitelistEntry → Decision.WhitelistRow
whitelist_row e = record { ip_address = e.ip_address; is_active = e.is_active }

abbrev pub blacklist_row : BlacklistEntry → Decision.BlacklistRow
blacklist_row e = record {
  ip_address = e.ip_address;
  is_active = e.is_active;
  reason = e.reason;
  source = some e.source;
  detection_count = e.detection_count;
}

-- What the decision service's queries see; the view adds a column and keeps every row.
unfoldable pub decided_on : Lists → Decision.Tables
decided_on t = record {
  whitelist = map whitelist_row t.whitelist;
  blacklist = map blacklist_row t.blacklist;
}

-- INSERT ... ON CONFLICT DO UPDATE ... RETURNING, UPDATE ... RETURNING and DELETE ... RETURNING
-- where at most one row meets the condition.
module _ {ℓ} {A : Type ℓ} (where_ : A → Bool) where
  unfoldable pub upsert_row : (A → A) → A → List A → A × List A
  upsert_row merge new [] = (new, new ∷ [])
  upsert_row merge new (q ∷ rows) =
      let (r, rest) = upsert_row merge new rows in
      if where_ q then (merge q, merge q ∷ rows) else (r, q ∷ rest)

  unfoldable pub update_row : (A → A) → List A → Option A × List A
  update_row set [] = (none, [])
  update_row set (q ∷ rows) =
      let (r, rest) = update_row set rows in
      if where_ q then (some (set q), set q ∷ rows) else (r, q ∷ rest)

  unfoldable pub delete_row : List A → Option A × List A
  delete_row [] = (none, [])
  delete_row (q ∷ rows) =
      let (r, rest) = delete_row rows in if where_ q then (some q, rows) else (r, q ∷ rest)

-- A call raises, or returns the row, where there is one.
pub data Reply {ℓ} (A : Type ℓ) : Type ℓ where
  raises : Reply A
  returns : Option A → Reply A

unfoldable pub merge_whitelist : WhitelistCreate → WhitelistEntry → WhitelistEntry
merge_whitelist w q = record q {
  reason = some w.reason;
  source = some w.source;
  country = coalesce w.country q.country;
}

unfoldable pub whitelist_entry : ℕ → WhitelistCreate → WhitelistEntry
whitelist_entry id w = record {
  id = id;
  ip_address = w.ip_address;
  reason = some w.reason;
  source = some w.source;
  country = w.country;
  is_active = true;
}

unfoldable pub create_whitelist : Bool → WhitelistCreate → Lists → Reply WhitelistEntry × Lists
create_whitelist breaks w t =
    let (r, rows) =
      upsert_row (λ q. str_eq q.ip_address w.ip_address) (merge_whitelist w)
        (whitelist_entry t.next_whitelist_id w) t.whitelist in
    if breaks then (raises, t) else (
      returns (some r),
      record t { whitelist = rows; next_whitelist_id = suc t.next_whitelist_id },
    )

-- NULL + 1 is NULL.
unfoldable pub incremented : Option ℕ → Option ℕ
incremented none = none
incremented (some n) = some (n + 1)

unfoldable pub merge_blacklist : BlacklistCreate → BlacklistEntry → BlacklistEntry
merge_blacklist b q = record q {
  reason = some b.reason;
  data_source = some "REGTECH";
  confidence_level = some b.confidence_level;
  detection_count = incremented q.detection_count;
  is_active = b.is_active;
  country = coalesce b.country q.country;
  detection_date = b.detection_date;
  removal_date = b.removal_date;
}

unfoldable pub blacklist_entry : ℕ → BlacklistCreate → BlacklistEntry
blacklist_entry id b = record {
  id = id;
  ip_address = b.ip_address;
  reason = some b.reason;
  source = b.source;
  data_source = some "REGTECH";
  confidence_level = some b.confidence_level;
  detection_count = some b.detection_count;
  is_active = b.is_active;
  country = b.country;
  detection_date = b.detection_date;
  removal_date = b.removal_date;
}

unfoldable pub create_blacklist : Bool → BlacklistCreate → Lists → Reply BlacklistEntry × Lists
create_blacklist breaks b t =
    let (r, rows) =
      upsert_row (λ q. str_eq q.ip_address b.ip_address && str_eq q.source b.source)
        (merge_blacklist b) (blacklist_entry t.next_blacklist_id b) t.blacklist in
    if breaks then (raises, t) else (
      returns (some r),
      record t { blacklist = rows; next_blacklist_id = suc t.next_blacklist_id },
    )

-- `{key} = %s`, of a key in WHITELIST_COLUMNS or in BLACKLIST_COLUMNS; the others are skipped.
unfoldable pub set_whitelist_column : Change → WhitelistEntry → WhitelistEntry
set_whitelist_column (set_ip_address s) e = record e { ip_address = s }
set_whitelist_column (set_reason s) e = record e { reason = some s }
set_whitelist_column (set_source s) e = record e { source = some s }
set_whitelist_column (set_country c) e = record e { country = c }
set_whitelist_column _ e = e

unfoldable pub set_blacklist_column : Change → BlacklistEntry → BlacklistEntry
set_blacklist_column (set_ip_address s) e = record e { ip_address = s }
set_blacklist_column (set_reason s) e = record e { reason = some s }
set_blacklist_column (set_source s) e = record e { source = s }
set_blacklist_column (set_data_source s) e = record e { data_source = some s }
set_blacklist_column (set_country c) e = record e { country = c }
set_blacklist_column (set_confidence_level n) e = record e { confidence_level = some n }
set_blacklist_column (set_detection_count n) e = record e { detection_count = some n }
set_blacklist_column (set_is_active b) e = record e { is_active = b }
set_blacklist_column (set_detection_date d) e = record e { detection_date = d }
set_blacklist_column (set_removal_date d) e = record e { removal_date = d }

unfoldable pub set_columns {ℓ} : {A : Type ℓ} → (Change → A → A) → List Change → A → A
set_columns set [] e = e
set_columns set (c ∷ changes) e = set_columns set changes (set c e)

-- The transaction is committed only where a row came back; else nothing has changed.
unfoldable pub update_whitelist : Bool → ℕ → List Change → Lists → Reply WhitelistEntry × Lists
update_whitelist breaks id changes t =
    let (r, rows) =
      update_row (λ q. q.id == id) (set_columns set_whitelist_column changes) t.whitelist in
    if breaks then (raises, t) else (returns r, record t { whitelist = rows })

unfoldable pub update_blacklist : Bool → ℕ → List Change → Lists → Reply BlacklistEntry × Lists
update_blacklist breaks id changes t =
    let (r, rows) =
      update_row (λ q. q.id == id) (set_columns set_blacklist_column changes) t.blacklist in
    if breaks then (raises, t) else (returns r, record t { blacklist = rows })

unfoldable pub delete_whitelist : Bool → ℕ → Lists → Reply WhitelistEntry × Lists
delete_whitelist breaks id t =
    let (r, rows) = delete_row (λ q. q.id == id) t.whitelist in
    if breaks then (raises, t) else (returns r, record t { whitelist = rows })

unfoldable pub delete_blacklist : Bool → ℕ → Lists → Reply BlacklistEntry × Lists
delete_blacklist breaks id t =
    let (r, rows) = delete_row (λ q. q.id == id) t.blacklist in
    if breaks then (raises, t) else (returns r, record t { blacklist = rows })
