-- ===== src/IpManagement/Batch/Requests.antt =====
-- The batch routes keep the cached decisions true.
use blacklist.Prelude.{
  ℕ, ◌≡◌, refl, sym, ◌∙◌, subst, inl, inr, Bool, true, false, Bool-cases, ◌&&◌, Option, none, some,
  String, List, [], ◌∷◌, ◌++◌, if◌then◌else◌, arith,
}
use blacklist.Prelude.Dict.{lookup}
use blacklist.Decision.{Service, invalidate_ip_caches, drop_keys}
use blacklist.Decision.Cache.{lookup-remove}
use blacklist.Decision.Coherence.{Agrees}
use blacklist.Decision.Invalidation.{contains}
use blacklist.IpManagement.{
  Python, Value, text, null, number, boolean, other, Parsed, refused, accepted, and_then, Change,
  set_reason, set_country, text_or,
}
use blacklist.IpManagement.Repository.{Lists}
use blacklist.IpManagement.Routes.{State, Faults}
use blacklist.IpManagement.Policy.{keeps_key, keeps_key-append}
use blacklist.IpManagement.Writes.{SameFor}
use blacklist.IpManagement.Coherence.{IsCurrent, Agrees-choose, is_listed-SameFor, entry-SameFor}
use blacklist.IpManagement.Batch.{
  Statement, Batch, BatchAnswer, batch_not_invalidated, run_batch, with_batch, parse_ip_batch,
  batch_country, reason_change, country_change, add_one, remove_one, update_one,
  batch_add_blacklist, batch_remove_blacklist, with_changes, batch_update_blacklist,
}
use blacklist.IpManagement.Batch.Rows.{
  IsLocal, for_each-SameFor, add_one-SameFor, remove_one-SameFor, update_one-SameFor,
}

lookup-invalidate_ip_caches :
    (ip : String) (keys : List String) (s : Service)
    → s.has_redis ≡ true
    → (lookup ip (invalidate_ip_caches keys s).whitelist_cache
        ≡ (if contains ip keys then none else lookup ip s.whitelist_cache))
      × (lookup ip (invalidate_ip_caches keys s).blacklist_cache
          ≡ (if contains ip keys then none else lookup ip s.blacklist_cache))
unfolding invalidate_ip_caches drop_keys
lookup-invalidate_ip_caches ip [] s redis = (refl, refl)
lookup-invalidate_ip_caches ip (key ∷ keys) s redis =
    let (e, f) = lookup-invalidate_ip_caches ip keys (drop_keys key s) redis in
    rw redis (
      ground (arith, e, lookup-remove key ip s.whitelist_cache),
      ground (arith, f, lookup-remove key ip s.blacklist_cache),
    )

without_redis :
    (keys : List String) (s : Service) → s.has_redis ≡ false → invalidate_ip_caches keys s ≡ s
unfolding invalidate_ip_caches
without_redis [] s h = refl
without_redis (key ∷ keys) s h = rw h refl

IsCurrent-batch :
    (horizon : ℕ) (t t' : Lists) (s : Service) (keys : List String)
    → ((ip : String) → contains ip keys ≡ false → SameFor ip t t')
    → IsCurrent horizon t s
    → IsCurrent horizon t' (invalidate_ip_caches keys s)
unfolding IsCurrent
IsCurrent-batch horizon t t' s keys unchanged current redis' = elim (Bool-cases s.has_redis) [
  | inl redis ↦ record {
    listed = λ ip. subst (Agrees horizon _) (sym (lookup-invalidate_ip_caches ip keys s redis).0) (
        Agrees-choose horizon _ _ (contains ip keys) (lookup ip s.whitelist_cache)
          (λ away b e. e ∙ is_listed-SameFor ip t t' (unchanged ip away))
          ((current redis).listed ip));
    answers = λ ip. subst (Agrees horizon _) (sym (lookup-invalidate_ip_caches ip keys s redis).1) (
        Agrees-choose horizon _ _ (contains ip keys) (lookup ip s.blacklist_cache)
          (λ away r e. e ∙ entry-SameFor ip t t' (unchanged ip away)) ((current redis).answers ip));
  }
  | inr without ↦ absurd (
      let still : s.has_redis ≡ true =
        subst (λ (u : Service). u.has_redis ≡ true) (without_redis keys s without) redis' in
      ground arith)
]

-- The state after a batch is current, unless its keys could not be deleted.
abbrev pub batch_invalidated : BatchAnswer → Bool
batch_invalidated batch_not_invalidated = false
batch_invalidated _ = true

unfoldable pub KeepsBatch : ℕ → BatchAnswer × State → Type 0
KeepsBatch horizon p = batch_invalidated p.0 ≡ true → IsCurrent horizon p.1.lists p.1.service

choose-KeepsBatch :
    (horizon : ℕ) (b : Bool) (p p' : BatchAnswer × State)
    → KeepsBatch horizon p
    → KeepsBatch horizon p'
    → KeepsBatch horizon (if b then p else p')
choose-KeepsBatch horizon true p p' h k = h
choose-KeepsBatch horizon false p p' h k = k

run_batch-KeepsBatch :
    (horizon : ℕ) (faults : Faults) (statement : Statement) (ips : List String) (state : State)
    → IsLocal statement
    → IsCurrent horizon state.lists state.service
    → KeepsBatch horizon (run_batch faults statement ips state)
unfolding run_batch KeepsBatch
run_batch-KeepsBatch horizon faults statement ips state local current =
    choose-KeepsBatch horizon faults.database_breaks _ _ (λ _. current)
      (choose-KeepsBatch horizon (state.service.has_redis && faults.redis_breaks) _ _ (λ e. cc)
        (λ _.
          IsCurrent-batch horizon state.lists _ state.service ips
            (λ ip absent. for_each-SameFor statement ips 0 state.lists ip local absent) current))

with_batch-KeepsBatch :
    {A : Type 0} (horizon : ℕ) (parsed : Parsed A) (state : State) (go : A → BatchAnswer × State)
    → IsCurrent horizon state.lists state.service
    → ((a : A) → parsed ≡ accepted a → KeepsBatch horizon (go a))
    → KeepsBatch horizon (with_batch parsed state go)
unfolding with_batch KeepsBatch
with_batch-KeepsBatch horizon (refused field) state go current k = λ _. current
with_batch-KeepsBatch horizon (accepted a) state go current k = k a refl

singleton_kept :
    {A : Type 0} (set : A → Change) (parsed : Parsed A) (changes : List Change)
    → ((a : A) → keeps_key (set a ∷ []) ≡ true)
    → and_then parsed (λ a. accepted (set a ∷ [])) ≡ accepted changes
    → keeps_key changes ≡ true
unfolding and_then
singleton_kept set (refused field) changes harmless e = cc
singleton_kept set (accepted a) changes harmless e =
    let same : set a ∷ [] ≡ changes = cc in subst (λ cs. keeps_key cs ≡ true) same (harmless a)

module _ (python : Python) where
  no_change : (changes : List Change) → accepted [] ≡ accepted changes → keeps_key changes ≡ true
  unfolding keeps_key
  no_change changes e = let same : [] ≡ changes = cc in subst (λ cs. keeps_key cs ≡ true) same refl

  reason_kept :
      (value : Option Value) (changes : List Change)
      → reason_change python value ≡ accepted changes
      → keeps_key changes ≡ true
  unfolding reason_change keeps_key
  reason_kept none changes e = no_change changes e
  reason_kept (some null) changes e = no_change changes e
  reason_kept (some (text s)) changes e = singleton_kept set_reason _ changes (λ a. refl) e
  reason_kept (some (number n)) changes e = singleton_kept set_reason _ changes (λ a. refl) e
  reason_kept (some (boolean b)) changes e = singleton_kept set_reason _ changes (λ a. refl) e
  reason_kept (some other) changes e = singleton_kept set_reason _ changes (λ a. refl) e

  country_kept :
      (value : Option Value) (changes : List Change)
      → country_change python value ≡ accepted changes
      → keeps_key changes ≡ true
  unfolding country_change keeps_key
  country_kept none changes e = no_change changes e
  country_kept (some null) changes e = no_change changes e
  country_kept (some (text s)) changes e =
      singleton_kept (λ s. set_country (some s)) _ changes (λ a. refl) e
  country_kept (some (number n)) changes e =
      singleton_kept (λ s. set_country (some s)) _ changes (λ a. refl) e
  country_kept (some (boolean b)) changes e =
      singleton_kept (λ s. set_country (some s)) _ changes (λ a. refl) e
  country_kept (some other) changes e =
      singleton_kept (λ s. set_country (some s)) _ changes (λ a. refl) e

module _ (python : Python) (horizon today : ℕ) (faults : Faults) (state : State)
    (current : IsCurrent horizon state.lists state.service) where
  update_kept :
      (changes : List Change) (ips : List String)
      → keeps_key changes ≡ true
      → KeepsBatch horizon (run_batch faults (update_one changes) ips state)
  update_kept changes ips kept =
      run_batch-KeepsBatch horizon faults (update_one changes) ips state
        (λ ip elsewhere away t. update_one-SameFor ip elsewhere away changes t kept) current

  with_changes-KeepsBatch :
      (changes more : List Change) (ips : List String)
      → keeps_key changes ≡ true
      → keeps_key more ≡ true
      → KeepsBatch horizon (with_changes faults changes more ips state)
  unfolding with_changes KeepsBatch
  with_changes-KeepsBatch [] [] ips h k = λ _. current
  with_changes-KeepsBatch (c ∷ changes) more ips h k =
      update_kept (c ∷ changes ++ more) ips (keeps_key-append (c ∷ changes) more h k)
  with_changes-KeepsBatch [] (c ∷ more) ips h k = update_kept (c ∷ more) ips k

  pub batch_add_blacklist-KeepsBatch :
      (batch : Batch) → KeepsBatch horizon (batch_add_blacklist python today faults batch state)
  unfolding batch_add_blacklist
  batch_add_blacklist-KeepsBatch batch =
      with_batch-KeepsBatch horizon (parse_ip_batch python batch.ips) state _ current (λ ips _.
        with_batch-KeepsBatch horizon
          (text_or python "reason" "Batch import" (lookup "reason" batch.fields)) state _ current
          (λ why _.
            with_batch-KeepsBatch horizon (batch_country python (lookup "country" batch.fields))
              state _ current
              (λ land _.
                run_batch-KeepsBatch horizon faults (add_one today why land) ips state
                  (λ ip elsewhere away t. add_one-SameFor ip elsewhere away today why land t)
                  current)))

  pub batch_remove_blacklist-KeepsBatch :
      (batch : Batch) → KeepsBatch horizon (batch_remove_blacklist python today faults batch state)
  unfolding batch_remove_blacklist
  batch_remove_blacklist-KeepsBatch batch =
      with_batch-KeepsBatch horizon (parse_ip_batch python batch.ips) state _ current (λ ips _.
        run_batch-KeepsBatch horizon faults remove_one ips state
          (λ ip elsewhere away t. remove_one-SameFor ip elsewhere away t) current)

  pub batch_update_blacklist-KeepsBatch :
      (batch : Batch) → KeepsBatch horizon (batch_update_blacklist python today faults batch state)
  unfolding batch_update_blacklist
  batch_update_blacklist-KeepsBatch batch =
      with_batch-KeepsBatch horizon (parse_ip_batch python batch.ips) state _ current (λ ips _.
        with_batch-KeepsBatch horizon (reason_change python (lookup "reason" batch.fields)) state _
          current
          (λ changes e.
            with_batch-KeepsBatch horizon (country_change python (lookup "country" batch.fields))
              state _ current
              (λ more f.
                with_changes-KeepsBatch changes more ips
                  (reason_kept python (lookup "reason" batch.fields) changes e)
                  (country_kept python (lookup "country" batch.fields) more f))))
