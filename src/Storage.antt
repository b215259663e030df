-- ===== src/Storage.antt =====
-- The collector's write path, `save_blacklist_ips` of collector/core/database/service.py and the
-- helpers of collector/core/database/queries.py, on the table `blacklist_ips`.
--
-- `strptime` (a text of the form %Y-%m-%d as a day's ordinal number), `ip_address` (none where it
-- raises ValueError) and `lower` are Python's own. A missing text of an item is `none`; a missing
-- address is the empty one, which the code treats alike. A row is without its times and raw data.
-- The only errors of the
-- database are those of the inserting transaction.
mod Tests
pub mod Counting
pub mod History
pub mod Insert
pub mod Selection
pub mod Save
pub mod Upsert
use blacklist.Prelude.{
  ℕ, zero, suc, ◌+◌, ◌-◌, Bool, true, false, ◌&&◌, ◌||◌, not, Option, none, some, List, [], ◌∷◌,
  ◌++◌, leb, ltb, if◌then◌else◌, String, str_eq, length, take, drop, map,
}
use blacklist.Prelude.Python.{empty_text}

pub data Confidence : Type 0 where
  number : ℕ → Confidence
  word : String → Confidence
  other : Confidence

pub record Item : Type 0 where
  pub ip_address : String
  pub reason : Option String
  pub source : Option String
  pub confidence_level : Option Confidence
  pub detection_count : Option ℕ
  pub is_active : Option Bool
  pub detection_date : Option String
  pub removal_date : Option String
  pub country : Option String
  pub data_source : Option String

pub record Row : Type 0 where
  pub id : ℕ
  pub ip_address : String
  pub source : String
  pub reason : String
  pub confidence_level : ℕ
  pub detection_count : ℕ
  pub is_active : Bool
  pub detection_date : Option ℕ
  pub removal_date : Option ℕ
  pub country : Option String
  pub data_source : Option String

-- `blacklist_ips` and the sequence of its ids.
pub record Table : Type 0 where
  pub rows : List Row
  pub next_id : ℕ

pub record Address : Type 0 where
  pub is_private : Bool
  pub is_loopback : Bool
  pub is_link_local : Bool
  pub is_reserved : Bool

abbrev pub get {ℓ} : {A : Type ℓ} → Option A → A → A
get none d = d
get (some a) d = a

abbrev pub coalesce {ℓ} : {A : Type ℓ} → Option A → Option A → Option A
coalesce none b = b
coalesce (some a) b = some a

-- SQL's and Python's test `date < today`, which a missing date does not pass.
abbrev pub is_past : ℕ → Option ℕ → Bool
is_past today none = false
is_past today (some day) = ltb day today

unfoldable pub convert_date_string : (String → Option ℕ) → Option String → Option ℕ
convert_date_string strptime none = none
convert_date_string strptime (some s) = if empty_text s then none else strptime s

abbrev confidence_mapping : String → ℕ
confidence_mapping s =
    if str_eq s "high"
    then 90
    else (if str_eq s "medium"
        then 50
        else (if str_eq s "low"
            then 10
            else (if str_eq s "critical" then 95 else (if str_eq s "unknown" then 5 else 50))))

unfoldable pub convert_confidence_to_int : (String → String) → Confidence → ℕ
convert_confidence_to_int lower (number n) = n
convert_confidence_to_int lower (word s) = confidence_mapping (lower s)
convert_confidence_to_int lower other = 50

-- What the filter's loop does with an item.
pub data Check : Type 0 where
  valid excluded expired : Check

abbrev pub is_excluded_address : Option Address → Bool
is_excluded_address none = true
is_excluded_address (some a) = a.is_private || a.is_loopback || a.is_link_local || a.is_reserved

unfoldable pub check_item : (String → Option ℕ) → (String → Option Address) → ℕ → Item → Check
check_item strptime ip_address today item =
    if empty_text item.ip_address || is_excluded_address (ip_address item.ip_address)
    then excluded
    else (if is_past today (convert_date_string strptime item.removal_date) then expired else valid)

pub record Filtered : Type 0 where
  pub valid_ips : List Item
  pub excluded_count : ℕ
  pub expired_count : ℕ

abbrev pub count_item : Check → Item → Filtered → Filtered
count_item valid item f = record f { valid_ips = item ∷ f.valid_ips }
count_item excluded item f = record f { excluded_count = suc f.excluded_count }
count_item expired item f = record f { expired_count = suc f.expired_count }

unfoldable pub filter_loop :
    (String → Option ℕ) → (String → Option Address) → ℕ → List Item → Filtered
filter_loop strptime ip_address today [] = record {
  valid_ips = [];
  excluded_count = 0;
  expired_count = 0;
}
filter_loop strptime ip_address today (item ∷ items) =
    count_item (check_item strptime ip_address today item) item
      (filter_loop strptime ip_address today items)

unfoldable pub filter_invalid_ips :
    (String → Option ℕ) → (String → Option Address) → ℕ → List Item → List Item × ℕ
filter_invalid_ips strptime ip_address today items =
    let f = filter_loop strptime ip_address today items in
    (f.valid_ips, f.excluded_count + f.expired_count)

unfoldable pub member : String → List String → Bool
member s [] = false
member s (t ∷ ts) = str_eq t s || member s ts

-- `found` items are in `unique_data` already, with the addresses `seen_ips`.
unfoldable pub dedup_loop : ℕ → List String → ℕ → List Item → List Item
dedup_loop cache_max_size seen_ips found [] = []
dedup_loop cache_max_size seen_ips found (item ∷ items) =
    let rest = dedup_loop cache_max_size seen_ips found items in
    let more = dedup_loop cache_max_size (item.ip_address ∷ seen_ips) (suc found) items in
    if not (empty_text item.ip_address) && not (member item.ip_address seen_ips)
    then item ∷ (if leb cache_max_size (suc found) then [] else more)
    else rest

unfoldable pub memory_optimized_dedup : ℕ → List Item → List Item
memory_optimized_dedup cache_max_size items = dedup_loop cache_max_size [] 0 items

-- The slices of `range(0, len(data), batch_size)`; a list has at most as many as it has items.
unfoldable pub batches_from {ℓ} : {A : Type ℓ} → ℕ → ℕ → List A → List (List A)
batches_from zero batch_size xs = []
batches_from (suc fuel) batch_size [] = []
batches_from (suc fuel) batch_size (x ∷ xs) =
    take batch_size (x ∷ xs) ∷ batches_from fuel batch_size (drop batch_size (x ∷ xs))

unfoldable pub get_batches {ℓ} : {A : Type ℓ} → ℕ → List A → List (List A)
get_batches batch_size xs = batches_from (length xs) batch_size xs
