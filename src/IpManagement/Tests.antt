-- ===== src/IpManagement/Tests.antt =====
-- An administrator who blocks, updates and whitelists an address, between checks of it.
use blacklist.Prelude.{
  ℕ, ◌≡◌, refl, true, false, Option, none, some, String, List, [], ◌∷◌, str_eq, if◌then◌else◌,
}
use blacklist.Prelude.Dict.{lookup, insert}
use blacklist.Decision
use blacklist.Decision.{
  check_blacklist, is_listed, respond, get_blacklist_entry, count_whitelist_by_ip, check_entry,
  drop_keys, invalidate_ip_caches, is_whitelisted, log_decision, query_blacklist, query_whitelist,
}
use blacklist.Decision.Cache.{fresh, read, remove}
use blacklist.Decision.Coherence.{answer, reference}
use blacklist.IpManagement.{
  Python, text, number, boolean, Payload, accepted, WhitelistCreate, BlacklistCreate,
  parse_blacklist_create, and_then, parse_payload, all_allowed, member, required_ip, require,
  parse_ip_value, text_or, short_text, confidence, detection_count_of, boolean_or, optional_date,
  optional_text, upper_text,
}
use blacklist.IpManagement.Updates.{
  and_also, at_least_one, change, parse_update_payload, unchecked_address, validate_fields,
}
use blacklist.IpManagement.Repository.{
  Lists, decided_on, create_whitelist, blacklist_entry, create_blacklist, merge_blacklist,
  set_blacklist_column, set_columns, update_blacklist, update_row, upsert_row,
}
use blacklist.IpManagement.Routes.{
  handle_create_blacklist, handle_update_blacklist, State, Faults, post_blacklist, put_blacklist,
  handle, with_payload, finish,
}
use blacklist.IpManagement.Batch.{
  batch_add_blacklist, parse_ip_batch, parse_each, batch_country, country_text, run_batch,
  with_batch, for_each, add_one, has_row, batch_entry,
}
use blacklist.IpManagement.Decisions.{
  batch, batch_add, handle_batch, Event, write, check, run, all_invalidated, started,
  run_up_to_date, started-IsCurrent, check_in,
}
use blacklist.IpManagement.Effects.{has_entry, create_whitelist_inactive}
use blacklist.IpManagement.Blocking.{post_blacklist_blocks}

-- Texts of the example are neither blank nor long, and one of them is an address.
abbrev len : String → ℕ
len s = 11

abbrev ip_address : String → Option String
ip_address s = if str_eq s "203.0.113.7" then some s else none

abbrev fromisoformat : String → Option ℕ
fromisoformat s = if str_eq s "2025-01-01" then some 739_252 else none

abbrev python : Python
python = record {
  len = len;
  strip = λ s. s;
  upper = λ s. s;
  ip_address = ip_address;
  fromisoformat = fromisoformat;
}

abbrev no_faults : Faults
no_faults = record { database_breaks = false; redis_breaks = false }

abbrev all_up : Decision.Faults
all_up = record {
  whitelist_get = false;
  whitelist_set = false;
  whitelist_query = false;
  blacklist_get = false;
  blacklist_set = false;
  blacklist_query = false;
}

abbrev block : Payload
block = ("ip_address", text "203.0.113.7") ∷ ("confidence_level", number 80) ∷ []

abbrev blocked : BlacklistCreate
blocked = record {
  ip_address = "203.0.113.7";
  reason = "Malicious Activity";
  source = "MANUAL";
  confidence_level = 80;
  detection_count = 1;
  is_active = true;
  country = none;
  detection_date = none;
  removal_date = none;
}

abbrev lists : Lists
lists = record { whitelist = []; blacklist = []; next_whitelist_id = 1; next_blacklist_id = 1 }

abbrev state : State
state = record { lists = lists; service = started true }

-- A check that caches the answer, a block, a check, a batch with the same address, an update that is refused, and a release.
abbrev events : List Event
events =
    check 100 "203.0.113.7" all_up
    ∷ write no_faults (post_blacklist block)
    ∷ check 110 "203.0.113.7" all_up
    ∷ batch batch_add 739_252 no_faults
        (record { ips = some (text "203.0.113.7" ∷ []); fields = [] })
    ∷ write no_faults (put_blacklist 1 (("ip_address", text "203.0.113.8") ∷ []))
    ∷ write no_faults (put_blacklist 1 (("is_active", boolean false) ∷ []))
    ∷ []

all_ok : all_invalidated python events state ≡ true
unfolding all_invalidated handle_batch batch_add_blacklist parse_ip_batch parse_each batch_country
    country_text run_batch with_batch for_each add_one has_row batch_entry handle
    handle_create_blacklist handle_update_blacklist with_payload parse_blacklist_create and_then
    parse_payload all_allowed member required_ip require lookup parse_ip_value text_or short_text
    confidence detection_count_of boolean_or fresh read remove check_blacklist check_entry
    count_whitelist_by_ip drop_keys get_blacklist_entry invalidate_ip_caches is_whitelisted
    log_decision query_blacklist query_whitelist respond check_in blacklist_entry create_blacklist
    decided_on merge_blacklist set_blacklist_column set_columns update_blacklist update_row
    upsert_row finish and_also at_least_one change optional_date optional_text parse_update_payload
    unchecked_address upper_text validate_fields insert started
all_ok = refl

run_up_to_date_example :
    let state' = run python events state in
    answer (check_blacklist (decided_on state'.lists) all_up 120 "203.0.113.7" state'.service).0
    ≡ reference (decided_on state'.lists) "203.0.113.7"
run_up_to_date_example =
    run_up_to_date python lists true events 120 "203.0.113.7" all_up all_ok refl refl

parsed : parse_blacklist_create python block ≡ accepted blocked
unfolding parse_blacklist_create and_then parse_payload all_allowed member required_ip require
    lookup parse_ip_value text_or short_text confidence detection_count_of boolean_or optional_date
    optional_text
parsed = refl

free : is_listed (decided_on lists) "203.0.113.7" ≡ false
unfolding decided_on count_whitelist_by_ip
free = refl

post_blacklist_blocks_example :
    let state' = (handle python no_faults (post_blacklist block) state).1 in
    (check_blacklist (decided_on state'.lists) all_up 120 "203.0.113.7" state'.service).0.blocked
    ≡ true
post_blacklist_blocks_example =
    post_blacklist_blocks python block blocked no_faults state 120 all_up parsed refl free
      (started-IsCurrent 0 lists true) refl refl refl refl

abbrev vip : WhitelistCreate
vip = record {
  ip_address = "203.0.113.7";
  reason = "VIP Protection";
  source = "MANUAL";
  country = none;
}

-- The address was taken off the whitelist.
abbrev taken_off : Lists
taken_off = record lists {
  whitelist =
      record {
        id = 1;
        ip_address = "203.0.113.7";
        reason = none;
        source = none;
        country = none;
        is_active = false;
      }
      ∷ [];
}

inactive_row : has_entry "203.0.113.7" taken_off.whitelist ≡ true
unfolding has_entry
inactive_row = refl

create_whitelist_inactive_example :
    is_listed (decided_on (create_whitelist false vip taken_off).1) "203.0.113.7"
    ≡ is_listed (decided_on taken_off) "203.0.113.7"
create_whitelist_inactive_example =
    create_whitelist_inactive vip taken_off "203.0.113.7" inactive_row
