-- ===== src/Decision/Coherence.antt =====
-- The cache of the decision service against the tables: how long an old answer can live.
use blacklist.Prelude.{
  ℕ, ◌+◌, ◌≤◌, ◌<◌, ◌≡◌, refl, Bool, true, false, subst, Bool-cases, ◌∙◌, Option, none, some,
  String, List, arith, str_eq, if◌then◌else◌, eq_iff, Option-cases, inl, inr,
}
use blacklist.Prelude.Dict.{lookup, insert, lookup-insert}
use blacklist.Decision.{
  Metadata, entry, checked, from_whitelist, error, Response, Tables, Service, Faults, Verdict,
  cache_ttl, is_listed, get_blacklist_entry, respond, log_decision, log_if_listed, query_whitelist,
  is_whitelisted, cache_hit, verdict_of, query_blacklist, check_entry, check_blacklist, cache_read,
  store_whitelist, store_blacklist,
}
use blacklist.Decision.Cache.{Cached, fresh, read}

-- The part of a response that does not tell whether it was cached.
abbrev pub plain : Metadata → Metadata
plain (entry source count _) = entry source count false
plain (checked _) = checked false
plain from_whitelist = from_whitelist
plain error = error

abbrev pub answer : Response → Bool × String × Metadata
answer r = (r.blocked, r.reason, plain r.metadata)

-- What the tables say of an address.
abbrev pub reference : Tables → String → Bool × String × Metadata
reference db ip =
    if is_listed db ip
    then (false, "whitelisted", from_whitelist)
    else answer (respond (get_blacklist_entry ip db.blacklist))

-- A cached value that lives past `horizon` is what the tables say.
abbrev pub Agrees : {A : Type 0} → ℕ → (A → Type 0) → Option (Cached A) → Type 0
Agrees horizon P none = Unit {0}
Agrees horizon P (some c) = horizon < c.deadline → P c.value

pub record IsCoherent (db : Tables) (horizon : ℕ) (s : Service) : Type 0 where
  pub listed :
      (ip : String) → Agrees horizon (λ b. b ≡ is_listed db ip) (lookup ip s.whitelist_cache)
  pub answers :
      (ip : String)
      → Agrees horizon
          (λ r. answer r ≡ answer (respond (get_blacklist_entry ip db.blacklist)))
          (lookup ip s.blacklist_cache)

fresh-Agrees :
    {A : Type 0} (P : A → Type 0) (horizon now : ℕ) (c : Option (Cached A)) {a : A}
    → Agrees horizon P c
    → horizon ≤ now
    → fresh now c ≡ some a
    → P a
unfolding fresh
fresh-Agrees P horizon now none g h e = cc
fresh-Agrees P horizon now (some c) {a} g h e =
    let v : c.value ≡ a = ground arith in
    let late : horizon < c.deadline = ground arith in subst P v (g late)

cache_read-fresh :
    {A : Type 0} (redis fails : Bool) (now : ℕ) (ip : String) (cache : List (String × Cached A))
    {a : A}
    → cache_read redis fails now ip cache ≡ some a
    → fresh now (lookup ip cache) ≡ some a
unfolding read
cache_read-fresh redis fails now ip cache h = ground arith

answer-cache_hit : (r : Response) → answer (record r { metadata = cache_hit r.metadata }) ≡ answer r
answer-cache_hit r = ground arith

insert-Agrees :
    {A : Type 0} (P : A → Type 0) (horizon deadline : ℕ) (k j : String) (a : A)
    (m : List (String × Cached A))
    → (k ≡ j → P a)
    → Agrees horizon P (lookup j m)
    → Agrees horizon P (lookup j (insert k (record { value = a; deadline = deadline }) m))
insert-Agrees P horizon deadline k j a m new old =
    rw (lookup-insert k j (record { value = a; deadline = deadline }) m)
      (elim (Bool-cases (str_eq k j)) [
        | inl same ↦ rw same (λ _. new ((eq_iff k j).0 same))
        | inr other ↦ rw other old
      ])

module _ (db : Tables) (horizon now : ℕ) (ip : String) where
  store_whitelist-IsCoherent :
      (b : Bool) (s : Service)
      → IsCoherent db horizon s
      → IsCoherent db horizon (store_whitelist b ip (is_listed db ip) now s)
  store_whitelist-IsCoherent false s c = c
  store_whitelist-IsCoherent true s c = record {
    listed = λ j.
        insert-Agrees (λ b. b ≡ is_listed db j) horizon (now + cache_ttl) ip j (is_listed db ip)
          s.whitelist_cache (λ e. rw e) (c.listed j);
    answers = c.answers;
  }

  log-IsCoherent :
      (v : Verdict) (reason : String) (s : Service)
      → IsCoherent db horizon s
      → IsCoherent db horizon (log_decision ip v reason s)
  unfolding log_decision
  log-IsCoherent v reason s c = record { listed = c.listed; answers = c.answers }

  log_if_listed-IsCoherent :
      (b : Bool) (s : Service)
      → IsCoherent db horizon s
      → IsCoherent db horizon (log_if_listed b ip s)
  log_if_listed-IsCoherent true s c = log-IsCoherent _ _ s c
  log_if_listed-IsCoherent false s c = c

  store_blacklist-IsCoherent :
      (b : Bool) (s : Service)
      → IsCoherent db horizon s
      → IsCoherent db horizon
          (store_blacklist b ip (respond (get_blacklist_entry ip db.blacklist)) now s)
  store_blacklist-IsCoherent false s c = c
  store_blacklist-IsCoherent true s c = record {
    listed = c.listed;
    answers = λ j.
        insert-Agrees (λ r. answer r ≡ answer (respond (get_blacklist_entry j db.blacklist)))
          horizon (now + cache_ttl) ip j (respond (get_blacklist_entry ip db.blacklist))
          s.blacklist_cache (λ e. rw e) (c.answers j);
  }

  query_whitelist-IsCoherent :
      (faults : Faults) (s : Service)
      → IsCoherent db horizon s
      → IsCoherent db horizon (query_whitelist db faults now ip s).1
  unfolding query_whitelist
  query_whitelist-IsCoherent faults s c = elim (Bool-cases faults.whitelist_query) [
    | inl down ↦ rw down c
    | inr up ↦
        rw up (log_if_listed-IsCoherent (is_listed db ip) _ (store_whitelist-IsCoherent _ s c))
  ]

  is_whitelisted-IsCoherent :
      (faults : Faults) (s : Service)
      → IsCoherent db horizon s
      → IsCoherent db horizon (is_whitelisted db faults now ip s).1
  is_whitelisted-IsCoherent faults s c =
      elim (Option-cases (cache_read s.has_redis faults.whitelist_get now ip s.whitelist_cache)) [
        | inl miss ↦
            unfold is_whitelisted in
            rw (miss, is_whitelisted) (query_whitelist-IsCoherent faults s c)
        | inr (b, hit) ↦
            unfold is_whitelisted in rw (hit, is_whitelisted) (log_if_listed-IsCoherent b s c)
      ]

  query_blacklist-IsCoherent :
      (faults : Faults) (s : Service)
      → IsCoherent db horizon s
      → IsCoherent db horizon (query_blacklist db faults now ip s).1
  unfolding query_blacklist
  query_blacklist-IsCoherent faults s c = elim (Bool-cases faults.blacklist_query) [
    | inl down ↦ rw down (log-IsCoherent _ _ s c)
    | inr up ↦ rw up (store_blacklist-IsCoherent _ _ (log-IsCoherent _ _ s c))
  ]

  check_entry-IsCoherent :
      (faults : Faults) (s : Service)
      → IsCoherent db horizon s
      → IsCoherent db horizon (check_entry db faults now ip s).1
  unfolding check_entry
  check_entry-IsCoherent faults s c =
      elim (Option-cases (cache_read s.has_redis faults.blacklist_get now ip s.blacklist_cache)) [
        | inl miss ↦ rw (miss, check_entry) (query_blacklist-IsCoherent faults s c)
        | inr (r, hit) ↦ rw (hit, check_entry) (log-IsCoherent (verdict_of r.blocked) r.reason s c)
      ]

  -- If the cache entries that live past a horizon agree with the tables, they still do after any
  -- check, whatever fails during it.
  pub check_blacklist-IsCoherent :
      (faults : Faults) (s : Service)
      → IsCoherent db horizon s
      → IsCoherent db horizon (check_blacklist db faults now ip s).1
  unfolding check_blacklist
  check_blacklist-IsCoherent faults s c =
      let s' = (is_whitelisted db faults now ip s).1 in
      let c' = is_whitelisted-IsCoherent faults s c in
      elim (Bool-cases (is_whitelisted db faults now ip s).0) [
        | inl listed ↦ rw listed c'
        | inr free ↦ rw free (check_entry-IsCoherent faults s' c')
      ]

  is_whitelisted-listed :
      (faults : Faults) (s : Service)
      → horizon ≤ now
      → faults.whitelist_query ≡ false
      → IsCoherent db horizon s
      → (is_whitelisted db faults now ip s).0 ≡ is_listed db ip
  unfolding is_whitelisted query_whitelist
  is_whitelisted-listed faults s since up c =
      elim (Option-cases (cache_read s.has_redis faults.whitelist_get now ip s.whitelist_cache)) [
        | inl miss ↦ rw (miss, is_whitelisted, up) refl
        | inr (b, hit) ↦
            rw (hit, is_whitelisted)
              (fresh-Agrees (λ b. b ≡ is_listed db ip) horizon now (lookup ip s.whitelist_cache)
                (c.listed ip) since (cache_read-fresh _ _ now ip s.whitelist_cache hit))
      ]

  check_entry-answers :
      (faults : Faults) (s : Service)
      → horizon ≤ now
      → faults.blacklist_query ≡ false
      → IsCoherent db horizon s
      → answer (check_entry db faults now ip s).0
        ≡ answer (respond (get_blacklist_entry ip db.blacklist))
  unfolding check_entry query_blacklist
  check_entry-answers faults s since up c =
      elim (Option-cases (cache_read s.has_redis faults.blacklist_get now ip s.blacklist_cache)) [
        | inl miss ↦ rw (miss, check_entry, up) refl
        | inr (r, hit) ↦
            rw (hit, check_entry)
              (answer-cache_hit r
                ∙ fresh-Agrees
                    (λ r. answer r ≡ answer (respond (get_blacklist_entry ip db.blacklist))) horizon
                    now (lookup ip s.blacklist_cache) (c.answers ip) since
                    (cache_read-fresh _ _ now ip s.blacklist_cache hit))
      ]

  -- While the database answers, and the cache entries that live past the horizon agree with the
  -- tables, a check from the horizon on says what the tables say, whether or not Redis is there,
  -- fails, or has the answer cached.
  pub check_blacklist-reference :
      (faults : Faults) (s : Service)
      → horizon ≤ now
      → faults.whitelist_query ≡ false
      → faults.blacklist_query ≡ false
      → IsCoherent db horizon s
      → answer (check_blacklist db faults now ip s).0 ≡ reference db ip
  unfolding check_blacklist
  check_blacklist-reference faults s since up up' c =
      let listed = is_whitelisted-listed faults s since up c in
      let s' = (is_whitelisted db faults now ip s).1 in
      let c' = is_whitelisted-IsCoherent faults s c in
      elim (Bool-cases (is_listed db ip)) [
        | inl found ↦ rw (listed ∙ found, found) refl
        | inr free ↦ rw (listed ∙ free, free) (check_entry-answers faults s' since up' c')
      ]
