-- ===== src/IpManagement/Blocking.antt =====
-- From a posted address to the decision on it.
use blacklist.Prelude.{
  ℕ, ◌≡◌, refl, sym, ◌∙◌, ap, subst, inl, inr, Bool, true, false, Bool-cases, ◌&&◌, some, none,
  String,
}
use blacklist.Decision.{Service, Tables, check_blacklist, is_listed, respond, get_blacklist_entry}
use blacklist.Decision
use blacklist.Decision.Coherence.{reference}
use blacklist.IpManagement.{Python, Payload, BlacklistCreate, parse_blacklist_create, accepted}
use blacklist.IpManagement.Repository.{Lists, Reply, raises, returns, decided_on, create_blacklist}
use blacklist.IpManagement.Routes.{
  handle_create_blacklist, State, Faults, finish, with_payload, blacklist_address, post_blacklist,
  handle,
}
use blacklist.IpManagement.Coherence.{IsCurrent, invalidated}
use blacklist.IpManagement.Traffic.{handle-IsCurrent}
use blacklist.IpManagement.Decisions.{current_reference}
use blacklist.IpManagement.Effects.{create_blacklist-blocked}

finish-lists :
    {A : Type 0} (address : A → String) (redis_breaks : Bool) (s : Service) (r : Reply A)
    (t : Lists)
    → (finish address redis_breaks s (r, t)).1.lists ≡ t
unfolding finish
finish-lists address redis_breaks s raises t = refl
finish-lists address redis_breaks s (returns none) t = refl
finish-lists address redis_breaks s (returns (some row)) t =
    elim (Bool-cases (s.has_redis && redis_breaks)) [ inl e ↦ rw e refl | inr e ↦ rw e refl ]

finish-invalidated :
    {A : Type 0} (address : A → String) (s : Service) (r : Reply A) (t : Lists)
    → invalidated (finish address false s (r, t)).0 ≡ true
unfolding finish
finish-invalidated address s raises t = refl
finish-invalidated address s (returns none) t = refl
finish-invalidated address s (returns (some row)) t = elim (Bool-cases s.has_redis) [
  | inl e ↦ rw e refl
  | inr e ↦ rw e refl
]

posted :
    (python : Python) (data_ : Payload) (b : BlacklistCreate) (faults : Faults) (state : State)
    → parse_blacklist_create python data_ ≡ accepted b
    → faults.database_breaks ≡ false
    → faults.redis_breaks ≡ false
    → handle python faults (post_blacklist data_) state
      ≡ finish blacklist_address false state.service (create_blacklist false b state.lists)
unfolding handle handle_create_blacklist with_payload
posted python data_ b faults state parsed up up' = rw (parsed, up, up') refl

create_blacklist-is_listed :
    (b : BlacklistCreate) (t : Lists) (ip : String)
    → is_listed (decided_on (create_blacklist false b t).1) ip ≡ is_listed (decided_on t) ip
unfolding create_blacklist decided_on
create_blacklist-is_listed b t ip = refl

blocked_by :
    (db : Tables) (ip : String) (b : Bool)
    → is_listed db ip ≡ false
    → (respond (get_blacklist_entry ip db.blacklist)).blocked ≡ b
    → (reference db ip).0 ≡ b
blocked_by db ip b free e = rw free e

-- A post of an active entry, where no call of the route fails and the cache agrees with the
-- tables, blocks its address at once: the next check for which the database answers says so,
-- if the address is not whitelisted.
pub post_blacklist_blocks :
    (python : Python) (data_ : Payload) (b : BlacklistCreate) (faults : Faults) (state : State)
    (now : ℕ) (check_faults : Decision.Faults)
    → parse_blacklist_create python data_ ≡ accepted b
    → b.is_active ≡ true
    → is_listed (decided_on state.lists) b.ip_address ≡ false
    → IsCurrent 0 state.lists state.service
    → faults.database_breaks ≡ false
    → faults.redis_breaks ≡ false
    → check_faults.whitelist_query ≡ false
    → check_faults.blacklist_query ≡ false
    → let state' = (handle python faults (post_blacklist data_) state).1 in
      (check_blacklist
        (decided_on state'.lists)
        check_faults
        now
        b.ip_address
        state'.service).0.blocked
      ≡ true
post_blacklist_blocks python data_ b faults state now check_faults parsed on free current db_up
      redis_up up up' =
    let p = handle python faults (post_blacklist data_) state in
    let e = posted python data_ b faults state parsed db_up redis_up in
    let kept : invalidated p.0 ≡ true =
      subst (λ q. invalidated q.0 ≡ true) (sym e)
        (finish-invalidated blacklist_address state.service (create_blacklist false b state.lists).0
          (create_blacklist false b state.lists).1) in
    let lists : p.1.lists ≡ (create_blacklist false b state.lists).1 =
      ap (λ q. q.1.lists) e
      ∙ finish-lists blacklist_address false state.service (create_blacklist false b state.lists).0
          (create_blacklist false b state.lists).1 in
    let now_current = handle-IsCurrent python 0 faults (post_blacklist data_) state current kept in
    ap (λ r. r.0)
      (current_reference p.1.lists now b.ip_address check_faults p.1.service up up' now_current)
    ∙ subst (λ t. (reference (decided_on t) b.ip_address).0 ≡ true) (sym lists)
        (blocked_by (decided_on (create_blacklist false b state.lists).1) b.ip_address true
          (create_blacklist-is_listed b state.lists b.ip_address ∙ free)
          (create_blacklist-blocked b state.lists on))
