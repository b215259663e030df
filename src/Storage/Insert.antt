-- ===== src/Storage/Insert.antt =====
-- The upsert of `_fallback_batch_insert` (collector/core/database/queries.py), and the whole of
-- `save_blacklist_ips` (collector/core/database/service.py).
use blacklist.Prelude.{
  none, some, ℕ, suc, ◌+◌, Bool, true, false, ◌&&◌, ◌||◌, not, Option, some, List, [], ◌∷◌,
  if◌then◌else◌, String, str_eq, length, map, take,
}
use blacklist.Storage.{
  Item, Row, Table, Address, number, get, coalesce, is_past, convert_date_string,
  convert_confidence_to_int, filter_invalid_ips, memory_optimized_dedup, get_batches, member,
}

abbrev pub same_key : Row → Row → Bool
same_key q r = str_eq q.ip_address r.ip_address && str_eq q.source r.source

-- ON CONFLICT (ip_address, source) DO UPDATE: `q` is in the table, `r` is EXCLUDED.
unfoldable pub merge : ℕ → Row → Row → Row
merge today q r = record {
  id = q.id;
  ip_address = q.ip_address;
  source = q.source;
  reason = r.reason;
  confidence_level = q.confidence_level;
  detection_count = q.detection_count + 1;
  is_active = if is_past today (coalesce r.removal_date q.removal_date) then false else r.is_active;
  detection_date = q.detection_date;
  removal_date = coalesce r.removal_date q.removal_date;
  country = coalesce r.country q.country;
  data_source = coalesce q.data_source r.data_source;
}

unfoldable pub upsert : ℕ → Row → List Row → List Row
upsert today r [] = r ∷ []
upsert today r (q ∷ rows) = if same_key q r then merge today q r ∷ rows else q ∷ upsert today r rows

module _ (strptime : String → Option ℕ) (lower : String → String) (today : ℕ) where
  -- The values of one item; its id is the next one. A field that is there with None counts as
  -- missing.
  unfoldable pub item_row : ℕ → Item → Row
  item_row id item =
      let removal_date = convert_date_string strptime item.removal_date in
      record {
        id = id;
        ip_address = item.ip_address;
        source = get item.source "COLLECTOR";
        reason = get item.reason "Blacklist IP";
        confidence_level = convert_confidence_to_int lower (get item.confidence_level (number 50));
        detection_count = get item.detection_count 1;
        is_active = if is_past today removal_date then false else get item.is_active true;
        detection_date = convert_date_string strptime item.detection_date;
        removal_date = removal_date;
        country = item.country;
        data_source = some (get item.data_source "REGTECH");
      }

  unfoldable pub insert_item : Item → Table → Table
  insert_item item t = record {
    rows = upsert today (item_row t.next_id item) t.rows;
    next_id = suc t.next_id;
  }

  -- `executemany`: the items one after another.
  unfoldable pub insert_items : List Item → Table → Table
  insert_items [] t = t
  insert_items (item ∷ items) t = insert_items items (insert_item item t)

  -- The table after a batch, and the cursor's row count.
  unfoldable pub fallback_batch_insert : List Item → Table → ℕ × Table
  fallback_batch_insert batch t = (length batch, insert_items batch t)

  unfoldable pub optimized_batch_insert : List Item → Table → ℕ × Table
  optimized_batch_insert [] t = (0, t)
  optimized_batch_insert (item ∷ items) t = fallback_batch_insert (item ∷ items) t

  unfoldable pub insert_batches : List (List Item) → ℕ → Table → ℕ × Table
  insert_batches [] saved_count t = (saved_count, t)
  insert_batches (batch ∷ batches) saved_count t =
      let (chunk_saved, t₁) = optimized_batch_insert batch t in
      insert_batches batches (saved_count + chunk_saved) t₁

unfoldable pub has_address : List Row → String → Bool
has_address [] s = false
has_address (q ∷ rows) s = str_eq q.ip_address s || has_address rows s

-- `set.update` with the addresses of one batch that the table has.
unfoldable pub add_existing : List Row → List String → List String → List String
add_existing rows [] existing_ips = existing_ips
add_existing rows (s ∷ batch) existing_ips =
    if has_address rows s && not (member s existing_ips)
    then add_existing rows batch (s ∷ existing_ips)
    else add_existing rows batch existing_ips

unfoldable pub add_batches : List Row → List (List String) → List String → List String
add_batches rows [] existing_ips = existing_ips
add_batches rows (batch ∷ batches) existing_ips =
    add_batches rows batches (add_existing rows batch existing_ips)

unfoldable pub batch_check_existing_ips : List Row → List String → List String
batch_check_existing_ips rows ip_addresses = add_batches rows (get_batches 1000 ip_addresses) []

unfoldable pub count_new : List String → List String → ℕ
count_new existing_ips [] = 0
count_new existing_ips (s ∷ ip_addresses) =
    let n = count_new existing_ips ip_addresses in if member s existing_ips then n else suc n

pub record Saved : Type 0 where
  pub total : ℕ
  pub new_count : ℕ
  pub updated_count : ℕ

-- The batches that are counted when the database raises after the first `k` of them: the error
-- of a batch is caught and counts 0, as does every later one in the aborted transaction.
abbrev pub counted_batches : Option ℕ → List (List Item) → List (List Item)
counted_batches none batches = batches
counted_batches (some k) batches = take k batches

-- The transaction is rolled back where the database raised. The next id goes back as well, while
-- the sequence of PostgreSQL would leave a gap.
abbrev pub commit_or_rollback : Option ℕ → Table → Table → Table
commit_or_rollback none before after = after
commit_or_rollback (some k) before after = before

-- `cache_max_size` is 1,000,000, `chunk_size` is BATCH_SIZE, and `breaks` says after how many
-- batches the database raises, if it does.
module _ (strptime : String → Option ℕ) (ip_address : String → Option Address)
    (lower : String → String) (today cache_max_size chunk_size : ℕ) (breaks : Option ℕ) where
  unfoldable pub save_unique : List Item → Table → Saved × Table
  save_unique [] t = (record { total = 0; new_count = 0; updated_count = 0 }, t)
  save_unique (item ∷ items) t =
      let addresses = map (λ (i : Item). i.ip_address) (item ∷ items) in
      let existing_ips = batch_check_existing_ips t.rows addresses in
      let (saved_count, t₁) =
        insert_batches strptime lower today
          (counted_batches breaks (get_batches chunk_size (item ∷ items))) 0 t in
      (
        record {
          total = saved_count;
          new_count = count_new existing_ips addresses;
          updated_count = length existing_ips;
        },
        commit_or_rollback breaks t t₁,
      )

  unfoldable pub save_blacklist_ips : List Item → Table → Saved × Table
  save_blacklist_ips ip_data t =
      let (filtered_ips, excluded_count) = filter_invalid_ips strptime ip_address today ip_data in
      save_unique (memory_optimized_dedup cache_max_size filtered_ips) t
