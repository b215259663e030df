-- ===== src/Storage/Tests.antt =====
-- A save of five items, two of them for the same address, into a table of one row.
use blacklist.Prelude.{
  length, concat, take, ℕ, ◌+◌, ◌≡◌, refl, true, false, Option, none, some, String, List, [], ◌∷◌,
  arith, str_eq, if◌then◌else◌,
}
use blacklist.Storage.{get_batches, Item, Table, Address}
use blacklist.Storage.Insert.{save_blacklist_ips}
use blacklist.Storage.Upsert.{AreSound, no_rows, with_row}
use blacklist.Storage.Save.{
  save_blacklist_ips-rollback, stored_items, save_blacklist_ips-AreSound, save_blacklist_ips-counts,
}

-- Two days that are read, and one private address.
abbrev strptime : String → Option ℕ
strptime s =
    if str_eq s "2026-01-01"
    then some 20_454
    else (if str_eq s "2026-12-31" then some 20_818 else none)

abbrev address : String → Option Address
address s =
    if str_eq s "not an address"
    then none
    else some (record {
      is_private = str_eq s "10.0.0.1";
      is_loopback = false;
      is_link_local = false;
      is_reserved = false;
    })

abbrev lower : String → String
lower s = s

abbrev item : String → Option String → Item
item ip_address removal_date = record {
  ip_address = ip_address;
  reason = some "scan";
  source = some "REGTECH";
  confidence_level = none;
  detection_count = none;
  is_active = none;
  detection_date = none;
  removal_date = removal_date;
  country = none;
  data_source = none;
}

abbrev items : List Item
items =
    item "203.0.113.7" none
    ∷ item "10.0.0.1" none
    ∷ item "203.0.113.8" (some "2026-12-31")
    ∷ item "203.0.113.7" none
    ∷ item "203.0.113.9" (some "2026-01-01")
    ∷ []

abbrev table : Table
table = record {
  rows =
      record {
        id = 1;
        ip_address = "203.0.113.7";
        source = "REGTECH";
        reason = "login";
        confidence_level = 50;
        detection_count = 1;
        is_active = true;
        detection_date = none;
        removal_date = none;
        country = some "KR";
        data_source = none;
      }
      ∷ [];
  next_id = 2;
}

table-AreSound : AreSound 20_600 table.next_id table.rows
table-AreSound = with_row refl (omega arith) refl no_rows

save_blacklist_ips-AreSound_example :
    AreSound 20_600
      (save_blacklist_ips strptime address lower 20_600 1_000_000 2_000 none items table).1.next_id
      (save_blacklist_ips strptime address lower 20_600 1_000_000 2_000 none items table).1.rows
save_blacklist_ips-AreSound_example =
    save_blacklist_ips-AreSound strptime address lower 20_600 1_000_000 2_000 (omega arith) none
      items table table-AreSound

save_blacklist_ips-counts_example :
    (save_blacklist_ips strptime address lower 20_600 1_000_000 2_000 none items table).0.new_count
      + (save_blacklist_ips strptime address lower 20_600 1_000_000 2_000 none items
          table).0.updated_count
    ≡ (save_blacklist_ips strptime address lower 20_600 1_000_000 2_000 none items table).0.total
save_blacklist_ips-counts_example =
    save_blacklist_ips-counts strptime address lower 20_600 1_000_000 2_000 (omega arith) items
      table

-- The first of two batches is counted, and nothing is stored.
save_blacklist_ips-rollback_example :
    let saved = save_blacklist_ips strptime address lower 20_600 1_000_000 1 (some 1) items table in
    (saved.1 ≡ table)
    × (saved.0.new_count + saved.0.updated_count
        ≡ length (stored_items strptime address lower 20_600 1_000_000 1 (omega arith) items))
    × (saved.0.total
        ≡ length (
            concat (
              take 1 (
                get_batches 1
                  (stored_items strptime address lower 20_600 1_000_000 1 (omega arith) items)))))
save_blacklist_ips-rollback_example =
    save_blacklist_ips-rollback strptime address lower 20_600 1_000_000 1 (omega arith) 1 items
      table
