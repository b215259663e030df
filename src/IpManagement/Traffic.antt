-- ===== src/IpManagement/Traffic.antt =====
-- Writes of the administrator and checks of addresses in any order.
use blacklist.Prelude.{ℕ, ◌≡◌, refl, Bool, true, false, ◌&&◌, none, some, String, if◌then◌else◌}
use blacklist.Decision.{Service}
use blacklist.IpManagement.{
  Python, Parsed, refused, accepted, parse_whitelist_create, parse_blacklist_create,
  whitelist_update_fields, blacklist_update_fields, member,
}
use blacklist.IpManagement.Updates.{parse_update_payload}
use blacklist.IpManagement.Repository.{Lists, Reply, raises, returns}
use blacklist.IpManagement.Routes.{
  handle_create_whitelist, handle_create_blacklist, handle_update_whitelist,
  handle_update_blacklist, handle_delete_whitelist, handle_delete_blacklist, Answer, State, Faults,
  finish, with_payload, whitelist_address, blacklist_address, Request, post_whitelist,
  post_blacklist, put_whitelist, put_blacklist, remove_whitelist, remove_blacklist, handle,
}
use blacklist.IpManagement.Policy.{parse_update_payload-KeepsKey}
use blacklist.IpManagement.Locality.{Elsewhere}
use blacklist.IpManagement.Writes
use blacklist.IpManagement.Coherence.{IsCurrent, invalidated, IsCurrent-same, IsCurrent-invalidated}

-- The state after a request is current, unless the keys could not be deleted.
unfoldable pub Keeps : ℕ → Answer × State → Type 0
Keeps horizon p = invalidated p.0 ≡ true → IsCurrent horizon p.1.lists p.1.service

choose-Keeps :
    (horizon : ℕ) (b : Bool) (p p' : Answer × State)
    → Keeps horizon p
    → Keeps horizon p'
    → Keeps horizon (if b then p else p')
choose-Keeps horizon true p p' h k = h
choose-Keeps horizon false p p' h k = k

finish-Keeps :
    {A : Type 0} (address : A → String) (horizon : ℕ) (redis_breaks : Bool) (s : Service)
    (t t' : Lists) (r : Reply A)
    → ((ip : String) → Writes.AwayFrom address ip r → Writes.SameFor ip t t')
    → IsCurrent horizon t s
    → Keeps horizon (finish address redis_breaks s (r, t'))
unfolding finish Keeps Writes.AwayFrom Elsewhere
finish-Keeps address horizon redis_breaks s t t' raises local current =
    λ _. IsCurrent-same horizon t t' s (λ ip. local ip tt) current
finish-Keeps address horizon redis_breaks s t t' (returns none) local current =
    λ _. IsCurrent-same horizon t t' s (λ ip. local ip tt) current
finish-Keeps address horizon redis_breaks s t t' (returns (some row)) local current =
    choose-Keeps horizon (s.has_redis && redis_breaks) _ _ (λ e. cc)
      (λ _. IsCurrent-invalidated horizon t t' s (address row) local current)

with_payload-Keeps :
    {A : Type 0} (horizon : ℕ) (parsed : Parsed A) (state : State) (write : A → Answer × State)
    → IsCurrent horizon state.lists state.service
    → ((a : A) → parsed ≡ accepted a → Keeps horizon (write a))
    → Keeps horizon (with_payload parsed state write)
unfolding with_payload Keeps
with_payload-Keeps horizon (refused field) state write current k = λ _. current
with_payload-Keeps horizon (accepted a) state write current k = k a refl

module _ (python : Python) (horizon : ℕ) where
  handle-Keeps :
      (faults : Faults) (request : Request) (state : State)
      → IsCurrent horizon state.lists state.service
      → Keeps horizon (handle python faults request state)
  unfolding handle member handle_create_whitelist handle_create_blacklist handle_update_whitelist
      handle_update_blacklist handle_delete_whitelist handle_delete_blacklist
  handle-Keeps faults (post_whitelist data_) state current =
      with_payload-Keeps horizon (parse_whitelist_create python data_) state _ current (λ w _.
        finish-Keeps whitelist_address horizon faults.redis_breaks state.service state.lists _ _
          (Writes.create_whitelist-SameFor faults.database_breaks w state.lists) current)
  handle-Keeps faults (post_blacklist data_) state current =
      with_payload-Keeps horizon (parse_blacklist_create python data_) state _ current (λ b _.
        finish-Keeps blacklist_address horizon faults.redis_breaks state.service state.lists _ _
          (Writes.create_blacklist-SameFor faults.database_breaks b state.lists) current)
  handle-Keeps faults (put_whitelist id data_) state current =
      with_payload-Keeps horizon (parse_update_payload python data_ whitelist_update_fields) state _
        current
        (λ changes e.
          finish-Keeps whitelist_address horizon faults.redis_breaks state.service state.lists _ _
            (λ ip.
              Writes.update_whitelist-SameFor faults.database_breaks id changes state.lists ip (
                parse_update_payload-KeepsKey python data_ whitelist_update_fields changes refl refl
                  e))
            current)
  handle-Keeps faults (put_blacklist id data_) state current =
      with_payload-Keeps horizon (parse_update_payload python data_ blacklist_update_fields) state _
        current
        (λ changes e.
          finish-Keeps blacklist_address horizon faults.redis_breaks state.service state.lists _ _
            (λ ip.
              Writes.update_blacklist-SameFor faults.database_breaks id changes state.lists ip (
                parse_update_payload-KeepsKey python data_ blacklist_update_fields changes refl refl
                  e))
            current)
  handle-Keeps faults (remove_whitelist id) state current =
      finish-Keeps whitelist_address horizon faults.redis_breaks state.service state.lists _ _
        (Writes.delete_whitelist-SameFor faults.database_breaks id state.lists) current
  handle-Keeps faults (remove_blacklist id) state current =
      finish-Keeps blacklist_address horizon faults.redis_breaks state.service state.lists _ _
        (Writes.delete_blacklist-SameFor faults.database_breaks id state.lists) current

  -- Whatever the request, its payload and what the database does, a cache of decisions that agrees
  -- with the tables still agrees with them afterwards, unless the write went through and deleting
  -- its address' keys raised.
  pub handle-IsCurrent :
      (faults : Faults) (request : Request) (state : State)
      → IsCurrent horizon state.lists state.service
      → invalidated (handle python faults request state).0 ≡ true
      → IsCurrent horizon
          (handle python faults request state).1.lists
          (handle python faults request state).1.service
  unfolding Keeps
  handle-IsCurrent faults request state current ok = handle-Keeps faults request state current ok
