-- ===== src/Decision/Invalidation.antt =====
-- What `invalidate_ip_caches` of app/core/utils/ip_cache.py does to the next check.
use blacklist.Prelude.{
  ℕ, ◌≡◌, refl, Bool, true, false, none, String, List, [], ◌∷◌, arith, str_eq, ◌||◌, Bool-cases,
  inl, inr,
}
use blacklist.Prelude.Dict.{lookup}
use blacklist.Decision.{
  Tables, Service, Faults, log_decision, query_whitelist, is_whitelisted, query_blacklist,
  check_entry, check_blacklist, invalidate_ip_caches, drop_keys,
}
use blacklist.Decision.Cache.{fresh, read, lookup-remove}
use blacklist.Decision.Coherence.{answer, reference}

abbrev pub contains : String → List String → Bool
contains ip [] = false
contains ip (j ∷ ips) = str_eq j ip || contains ip ips

-- Neither cache can answer for the address.
abbrev pub IsUncached : String → Service → Type 0
IsUncached ip s =
    s.has_redis ≡ true → (lookup ip s.whitelist_cache ≡ none) × (lookup ip s.blacklist_cache ≡ none)

drop_keys-IsUncached :
    (j ip : String) (s : Service)
    → (str_eq j ip ≡ false → IsUncached ip s)
    → IsUncached ip (drop_keys j s)
unfolding drop_keys
drop_keys-IsUncached j ip s h redis = elim (Bool-cases (str_eq j ip)) [
  | inl same ↦
      ground (arith, lookup-remove j ip s.whitelist_cache, lookup-remove j ip s.blacklist_cache)
  | inr other ↦ ground (
    arith,
    h other redis,
    lookup-remove j ip s.whitelist_cache,
    lookup-remove j ip s.blacklist_cache,
  )
]

invalidated :
    (ips : List String) (ip : String) (s : Service)
    → (contains ip ips ≡ false → IsUncached ip s)
    → IsUncached ip (invalidate_ip_caches ips s)
unfolding invalidate_ip_caches
invalidated [] ip s h = h refl
invalidated (j ∷ ips) ip s h = elim (Bool-cases s.has_redis) [
  | inl redis ↦ simp redis (
      invalidated ips ip (drop_keys j s)
        (λ rest. drop_keys-IsUncached j ip s (λ other. h (ground arith))))
  | inr without ↦ simp without (λ redis. cc)
]

pub uncached_reference :
    (db : Tables) (now : ℕ) (ip : String) (faults : Faults) (s : Service)
    → faults.whitelist_query ≡ false
    → faults.blacklist_query ≡ false
    → IsUncached ip s
    → answer (check_blacklist db faults now ip s).0 ≡ reference db ip
unfolding check_blacklist is_whitelisted query_whitelist check_entry query_blacklist log_decision
    read fresh
uncached_reference db now ip faults s up up' u = elim (Bool-cases s.has_redis) [
  | inl redis ↦ ground (arith, u redis)
  | inr without ↦ ground arith
]

-- After an invalidation of addresses that name this one, the next check reads the tables, while
-- the database answers: nothing that was cached for the address is used.
pub check_blacklist-invalidate_ip_caches :
    (db : Tables) (now : ℕ) (ips : List String) (ip : String) (faults : Faults) (s : Service)
    → contains ip ips ≡ true
    → faults.whitelist_query ≡ false
    → faults.blacklist_query ≡ false
    → answer (check_blacklist db faults now ip (invalidate_ip_caches ips s)).0 ≡ reference db ip
check_blacklist-invalidate_ip_caches db now ips ip faults s named up up' =
    uncached_reference db now ip faults (invalidate_ip_caches ips s) up up'
      (invalidated ips ip s (λ absent. cc))
