-- ===== src/Decision.antt =====
-- The decision on an address: `BlacklistService` of app/core/services/blacklist_service.py over
-- `BlacklistRepository` of app/core/services/blacklist_repository.py, and the cache keys that
-- app/core/utils/ip_cache.py deletes. Times are seconds. `json.dumps` and `json.loads` carry a
-- response through Redis unchanged, and a fault is an exception of the call that it names.
mod Tests
pub mod Cache
pub mod Coherence
pub mod Outcomes
pub mod Invalidation
use blacklist.Prelude.{
  ℕ, suc, ◌+◌, Bool, true, false, ◌&&◌, not, Option, none, some, String, List, [], ◌∷◌, ◌++◌, ltb,
  length, str_eq, if◌then◌else◌,
}
use blacklist.Prelude.Dict.{insert}
use blacklist.Prelude.Python.{or_text, or_number}
use Cache.{Cached, read, remove}

pub data Metadata : Type 0 where
  from_whitelist : Metadata
  entry : String → ℕ → Bool → Metadata
  checked : Bool → Metadata
  error : Metadata

pub record Response : Type 0 where
  pub blocked : Bool
  pub reason : String
  pub metadata : Metadata

pub data Verdict : Type 0 where
  blocked_ip allowed_ip error_ip : Verdict

pub record Decision : Type 0 where
  pub ip : String
  pub verdict : Verdict
  pub reason : String

-- The rows of `whitelist_ips` and of the view on `blacklist_ips`, with the columns that are read.
pub record WhitelistRow : Type 0 where
  pub ip_address : String
  pub is_active : Bool

pub record BlacklistRow : Type 0 where
  pub ip_address : String
  pub is_active : Bool
  pub reason : Option String
  pub source : Option String
  pub detection_count : Option ℕ

pub record Tables : Type 0 where
  pub whitelist : List WhitelistRow
  pub blacklist : List BlacklistRow

pub record Service : Type 0 where
  pub has_redis : Bool
  pub whitelist_cache : List (String × Cached Bool)
  pub blacklist_cache : List (String × Cached Response)
  pub decisions : List Decision

-- Which calls of one request raise.
pub record Faults : Type 0 where
  pub whitelist_get : Bool
  pub whitelist_set : Bool
  pub whitelist_query : Bool
  pub blacklist_get : Bool
  pub blacklist_set : Bool
  pub blacklist_query : Bool

abbrev pub cache_ttl : ℕ
cache_ttl = 300

-- SELECT COUNT(*) ... WHERE ip_address = ip AND is_active = true
unfoldable pub count_whitelist_by_ip : String → List WhitelistRow → ℕ
count_whitelist_by_ip ip [] = 0
count_whitelist_by_ip ip (row ∷ rows) =
    let rest = count_whitelist_by_ip ip rows in
    if str_eq row.ip_address ip && row.is_active then suc rest else rest

-- SELECT ... WHERE ip_address = ip AND is_active = true: the first row
unfoldable pub get_blacklist_entry : String → List BlacklistRow → Option BlacklistRow
get_blacklist_entry ip [] = none
get_blacklist_entry ip (row ∷ rows) =
    if str_eq row.ip_address ip && row.is_active then some row else get_blacklist_entry ip rows

abbrev pub is_listed : Tables → String → Bool
is_listed db ip = ltb 0 (count_whitelist_by_ip ip db.whitelist)

unfoldable pub log_decision : String → Verdict → String → Service → Service
log_decision ip verdict reason s = record s {
  decisions = s.decisions ++ record { ip = ip; verdict = verdict; reason = reason } ∷ [];
}

-- The metrics and the log of a whitelisted address.
abbrev pub log_if_listed : Bool → String → Service → Service
log_if_listed true ip s = log_decision ip allowed_ip "whitelisted" s
log_if_listed false ip s = s

abbrev pub store_whitelist : Bool → String → Bool → ℕ → Service → Service
store_whitelist false ip listed now s = s
store_whitelist true ip listed now s = record s {
  whitelist_cache =
      insert ip (record { value = listed; deadline = now + cache_ttl }) s.whitelist_cache;
}

-- What a cache read gives: nothing without Redis, or where the read raises.
abbrev pub cache_read {ℓ} :
    {A : Type ℓ} → Bool → Bool → ℕ → String → List (String × Cached A) → Option A
cache_read redis fails now ip cache = if redis && not fails then read now ip cache else none

-- The database's answer, where the cache has none.
unfoldable pub query_whitelist : Tables → Faults → ℕ → String → Service → Bool × Service
query_whitelist db faults now ip s =
    let listed = is_listed db ip in
    if faults.whitelist_query then (false, s) else (
      listed,
      log_if_listed listed ip
          (store_whitelist (s.has_redis && not faults.whitelist_set) ip listed now s),
    )

unfoldable pub is_whitelisted : Tables → Faults → ℕ → String → Service → Bool × Service
is_whitelisted db faults now ip s =
    elim (cache_read s.has_redis faults.whitelist_get now ip s.whitelist_cache) [
      | some listed ↦ (listed, log_if_listed listed ip s)
      | none ↦ query_whitelist db faults now ip s
    ]

-- result["metadata"]["cache_hit"] = True
abbrev pub cache_hit : Metadata → Metadata
cache_hit (entry source count _) = entry source count true
cache_hit (checked _) = checked true
cache_hit from_whitelist = from_whitelist
cache_hit error = error

unfoldable pub respond : Option BlacklistRow → Response
respond none = record { blocked = false; reason = "not_in_blacklist"; metadata = checked false }
respond (some row) = record {
  blocked = true;
  reason = or_text row.reason "blacklisted";
  metadata = entry (or_text row.source "unknown") (or_number row.detection_count 1) false;
}

abbrev pub verdict_of : Bool → Verdict
verdict_of true = blocked_ip
verdict_of false = allowed_ip

abbrev pub store_blacklist : Bool → String → Response → ℕ → Service → Service
store_blacklist false ip r now s = s
store_blacklist true ip r now s = record s {
  blacklist_cache = insert ip (record { value = r; deadline = now + cache_ttl }) s.blacklist_cache;
}

unfoldable pub query_blacklist : Tables → Faults → ℕ → String → Service → Response × Service
query_blacklist db faults now ip s =
    let r = respond (get_blacklist_entry ip db.blacklist) in
    if faults.blacklist_query
    then (
      record { blocked = false; reason = "error"; metadata = error },
      log_decision ip error_ip "error" s,
    )
    else (
      r,
      store_blacklist (s.has_redis && not faults.blacklist_set) ip r now
          (log_decision ip (verdict_of r.blocked) r.reason s),
    )

-- `check_blacklist` for an address that is not whitelisted.
unfoldable pub check_entry : Tables → Faults → ℕ → String → Service → Response × Service
check_entry db faults now ip s =
    elim (cache_read s.has_redis faults.blacklist_get now ip s.blacklist_cache) [
      | some r ↦ (
        record r { metadata = cache_hit r.metadata },
        log_decision ip (verdict_of r.blocked) r.reason s,
      )
      | none ↦ query_blacklist db faults now ip s
    ]

unfoldable pub check_blacklist : Tables → Faults → ℕ → String → Service → Response × Service
check_blacklist db faults now ip s =
    let (listed, s') = is_whitelisted db faults now ip s in
    if listed
    then (record { blocked = false; reason = "whitelisted"; metadata = from_whitelist }, s')
    else check_entry db faults now ip s'

-- DEL on both keys of an address.
unfoldable pub drop_keys : String → Service → Service
drop_keys ip s = record s {
  whitelist_cache = remove ip s.whitelist_cache;
  blacklist_cache = remove ip s.blacklist_cache;
}

-- `invalidate_ip_caches`: both keys of every address are deleted, where there is a Redis.
unfoldable pub invalidate_ip_caches : List String → Service → Service
invalidate_ip_caches [] s = s
invalidate_ip_caches (ip ∷ ips) s =
    if s.has_redis then invalidate_ip_caches ips (drop_keys ip s) else s
