-- ===== src/Decision/Outcomes.antt =====
-- Requests on the decision service: how long an answer can be out of date, what a failing database
-- means, and the log.
use blacklist.Prelude.{
  ℕ, ◌+◌, ◌≤◌, ◌≡◌, refl, true, false, Option, none, some, String, List, [], ◌∷◌, ◌++◌, arith, ◌⊎◌,
  ◌∙◌, str_eq, if◌then◌else◌, Option-cases, Bool-cases, inl, inr, ap,
}
use blacklist.Prelude.Dict.{lookup, insert, lookup-insert}
use blacklist.Decision.{
  error, Response, Tables, Service, Faults, Verdict, Decision, cache_ttl, is_listed,
  get_blacklist_entry, respond, verdict_of, allowed_ip, error_ip, log_decision, query_whitelist,
  is_whitelisted, query_blacklist, check_entry, check_blacklist, cache_read,
}
use blacklist.Decision.Cache.{Cached, fresh, read}
use blacklist.Decision.Coherence.{
  Agrees, IsCoherent, answer, reference, check_blacklist-IsCoherent, check_blacklist-reference,
}

-- A request: the moment, the address, and what fails during it.
abbrev pub Request : Type 0
Request = ℕ × String × Faults

module _ (db : Tables) where
  unfoldable pub serve : List Request → Service → Service
  serve [] s = s
  serve ((now, ip, faults) ∷ rest) s = serve rest (check_blacklist db faults now ip s).1

  serve-IsCoherent :
      (horizon : ℕ) (requests : List Request) (s : Service)
      → IsCoherent db horizon s
      → IsCoherent db horizon (serve requests s)
  unfolding serve
  serve-IsCoherent horizon [] s c = c
  serve-IsCoherent horizon ((now, ip, faults) ∷ rest) s c =
      serve-IsCoherent horizon rest _ (check_blacklist-IsCoherent db horizon now ip faults s c)

abbrev pub EndsBy : {A : Type 0} → ℕ → Option (Cached A) → Type 0
EndsBy bound none = Unit {0}
EndsBy bound (some c) = c.deadline ≤ bound

-- Nothing was cached after `now`.
pub record IsRecent (now : ℕ) (s : Service) : Type 0 where
  pub listed : (ip : String) → EndsBy (now + cache_ttl) (lookup ip s.whitelist_cache)
  pub answers : (ip : String) → EndsBy (now + cache_ttl) (lookup ip s.blacklist_cache)

ends :
    {A : Type 0} (P : A → Type 0) (bound : ℕ) (c : Option (Cached A))
    → EndsBy bound c
    → Agrees bound P c
ends P bound none e = tt
ends P bound (some c) e = λ late. absurd (omega arith)

recent-IsCoherent :
    (db : Tables) (now : ℕ) (s : Service) → IsRecent now s → IsCoherent db (now + cache_ttl) s
recent-IsCoherent db now s r = record {
  listed = λ ip. ends _ (now + cache_ttl) (lookup ip s.whitelist_cache) (r.listed ip);
  answers = λ ip. ends _ (now + cache_ttl) (lookup ip s.blacklist_cache) (r.answers ip);
}

-- When the tables change at `changed`, and nothing in the cache was stored after that, then after
-- any requests a check from 300 seconds later on, for which the database answers, goes by the new
-- tables, whatever was cached before and whichever calls failed meanwhile.
pub check_blacklist_up_to_date :
    (db : Tables) (changed now : ℕ) (ip : String) (requests : List Request) (faults : Faults)
    (s : Service)
    → IsRecent changed s
    → changed + cache_ttl ≤ now
    → faults.whitelist_query ≡ false
    → faults.blacklist_query ≡ false
    → answer (check_blacklist db faults now ip (serve db requests s)).0 ≡ reference db ip
check_blacklist_up_to_date db changed now ip requests faults s r since up up' =
    check_blacklist-reference db (changed + cache_ttl) now ip faults (serve db requests s) since up
      up' (serve-IsCoherent db (changed + cache_ttl) requests s (recent-IsCoherent db changed s r))

insert-EndsBy :
    {A : Type 0} (bound deadline : ℕ) (k j : String) (a : A) (m : List (String × Cached A))
    → deadline ≤ bound
    → EndsBy bound (lookup j m)
    → EndsBy bound (lookup j (insert k (record { value = a; deadline = deadline }) m))
insert-EndsBy bound deadline k j a m h old =
    rw (lookup-insert k j (record { value = a; deadline = deadline }) m)
      (elim (Bool-cases (str_eq k j)) [ inl same ↦ rw same h | inr other ↦ rw other old ])

module _ (db : Tables) (now : ℕ) (ip : String) (faults : Faults) where
  is_whitelisted-IsRecent :
      (s : Service) → IsRecent now s → IsRecent now (is_whitelisted db faults now ip s).1
  unfolding is_whitelisted query_whitelist log_decision
  is_whitelisted-IsRecent s r = record {
    listed = λ j. ground (
      arith,
      r.listed j,
      insert-EndsBy (now + cache_ttl) (now + cache_ttl) ip j (is_listed db ip) s.whitelist_cache
          (omega arith) (r.listed j),
    );
    answers = λ j. ground (arith, r.answers j);
  }

  check_entry-IsRecent :
      (s : Service) → IsRecent now s → IsRecent now (check_entry db faults now ip s).1
  unfolding check_entry query_blacklist log_decision
  check_entry-IsRecent s r = record {
    listed = λ j. ground (arith, r.listed j);
    answers = λ j. ground (
      arith,
      r.answers j,
      insert-EndsBy (now + cache_ttl) (now + cache_ttl) ip j
          (respond (get_blacklist_entry ip db.blacklist)) s.blacklist_cache (omega arith)
          (r.answers j),
    );
  }

  -- What a check caches ends 300 seconds after it at the latest.
  pub check_blacklist-IsRecent :
      (s : Service) → IsRecent now s → IsRecent now (check_blacklist db faults now ip s).1
  unfolding check_blacklist
  check_blacklist-IsRecent s r =
      let w = is_whitelisted-IsRecent s r in
      let s' = (is_whitelisted db faults now ip s).1 in
      elim (Bool-cases (is_whitelisted db faults now ip s).0) [
        | inl listed ↦ rw listed w
        | inr free ↦ rw free (check_entry-IsRecent s' w)
      ]

  -- One decision was appended, for this address and with the response's reason: blocked or
  -- allowed as the response says, or an error where the response is the error response.
  pub record LogsOnce (s : Service) (p : Response × Service) : Type 0 where
    pub verdict : Verdict
    pub logged :
        p.1.decisions
        ≡ s.decisions ++ record { ip = ip; verdict = verdict; reason = p.0.reason } ∷ []
    pub answers :
        (verdict ≡ verdict_of p.0.blocked) ⊎ ((verdict ≡ error_ip) × (p.0.metadata ≡ error))

  check_entry-LogsOnce : (s : Service) → LogsOnce s (check_entry db faults now ip s)
  unfolding check_entry query_blacklist log_decision
  check_entry-LogsOnce s =
      elim (Option-cases (cache_read s.has_redis faults.blacklist_get now ip s.blacklist_cache)) [
        | inr (r, hit) ↦
            rw (hit, check_entry)
              (record { verdict = verdict_of r.blocked; logged = refl; answers = inl refl })
        | inl miss ↦
            rw (miss, check_entry)
              (elim (Bool-cases faults.blacklist_query) [
                | inl down ↦
                    rw down
                      (record { verdict = error_ip; logged = refl; answers = inr (refl, refl) })
                | inr up ↦
                    let r = respond (get_blacklist_entry ip db.blacklist) in
                    rw up (record {
                      verdict = verdict_of r.blocked;
                      logged = ground arith;
                      answers = inl refl;
                    })
              ])
      ]

  is_whitelisted-decisions :
      (s : Service)
      → (is_whitelisted db faults now ip s).1.decisions ≡ (
          if (is_whitelisted db faults now ip s).0
          then s.decisions ++ record { ip = ip; verdict = allowed_ip; reason = "whitelisted" } ∷ []
          else s.decisions)
  unfolding is_whitelisted query_whitelist log_decision
  is_whitelisted-decisions s = ground arith

  -- Every check logs exactly one decision, and it is the one that the caller gets.
  pub check_blacklist-LogsOnce : (s : Service) → LogsOnce s (check_blacklist db faults now ip s)
  unfolding check_blacklist
  check_blacklist-LogsOnce s =
      let (b, s') = is_whitelisted db faults now ip s in
      let before = is_whitelisted-decisions s in
      elim (Bool-cases (is_whitelisted db faults now ip s).0) [
        | inl listed ↦
            rw listed
              (record { verdict = allowed_ip; logged = rw listed at before; answers = inl refl })
        | inr free ↦
            let e = check_entry-LogsOnce s' in
            let same : s'.decisions ≡ s.decisions = rw free at before in
            let reason = (check_entry db faults now ip s').0.reason in
            rw free (record {
              verdict = e.verdict;
              logged =
                  e.logged
                  ∙ ap
                      (λ (l : List Decision).
                        l ++ record { ip = ip; verdict = e.verdict; reason = reason } ∷ [])
                      same;
              answers = e.answers;
            })
      ]

  -- An address that is not in a cache is let through while the table of blocked addresses cannot
  -- be read, and nothing of that is cached.
  pub check_blacklist_fails_open :
      (s : Service)
      → faults.blacklist_query ≡ true
      → lookup ip s.blacklist_cache ≡ none
      → ((check_blacklist db faults now ip s).0.blocked ≡ false)
        × ((check_blacklist db faults now ip s).1.blacklist_cache ≡ s.blacklist_cache)
  unfolding check_blacklist is_whitelisted query_whitelist check_entry query_blacklist log_decision
      read fresh
  check_blacklist_fails_open s down absent = ground arith
