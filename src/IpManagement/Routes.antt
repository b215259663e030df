-- ===== src/IpManagement/Routes.antt =====
-- The routes that write the two lists, app/core/routes/api/ip_management/routes.py: the checks of
-- the payload, the repository, and the cached decisions that a write drops.
--
-- `redis_breaks` says that the deletion of the keys raises: the row is written by then, and the
-- caller gets a DatabaseError.
use blacklist.Prelude.{ℕ, Bool, ◌&&◌, none, some, String, [], ◌∷◌, if◌then◌else◌}
use blacklist.Decision.{Service, invalidate_ip_caches}
use blacklist.IpManagement.{
  Python, Payload, Parsed, refused, accepted, parse_whitelist_create, parse_blacklist_create,
  whitelist_update_fields, blacklist_update_fields,
}
use blacklist.IpManagement.Updates.{parse_update_payload}
use blacklist.IpManagement.Repository.{
  Lists, WhitelistEntry, BlacklistEntry, Reply, raises, returns, create_whitelist, create_blacklist,
  update_whitelist, update_blacklist, delete_whitelist, delete_blacklist,
}

pub data Answer : Type 0 where
  bad_request : String → Answer
  database_error not_found : Answer
  -- The write is done and its address' keys are deleted, or deleting them raised.
  done invalidation_failed : String → Answer

pub record State : Type 0 where
  pub lists : Lists
  pub service : Service

pub record Faults : Type 0 where
  pub database_breaks : Bool
  pub redis_breaks : Bool

-- After the repository: `address` is the row's.
unfoldable pub finish {ℓ} :
    {A : Type ℓ} → (A → String) → Bool → Service → Reply A × Lists → Answer × State
finish address redis_breaks s (raises, t) = (database_error, record { lists = t; service = s })
finish address redis_breaks s (returns none, t) = (not_found, record { lists = t; service = s })
finish address redis_breaks s (returns (some row), t) =
    if s.has_redis && redis_breaks
    then (invalidation_failed (address row), record { lists = t; service = s })
    else (
      done (address row),
      record { lists = t; service = invalidate_ip_caches (address row ∷ []) s },
    )

unfoldable pub with_payload {ℓ} :
    {A : Type ℓ} → Parsed A → State → (A → Answer × State) → Answer × State
with_payload (refused field) state write = (bad_request field, state)
with_payload (accepted a) state write = write a

abbrev pub whitelist_address : WhitelistEntry → String
whitelist_address e = e.ip_address

abbrev pub blacklist_address : BlacklistEntry → String
blacklist_address e = e.ip_address

-- A request, with the id of its path.
pub data Request : Type 0 where
  post_whitelist post_blacklist : Payload → Request
  put_whitelist put_blacklist : ℕ → Payload → Request
  remove_whitelist remove_blacklist : ℕ → Request

module _ (python : Python) (faults : Faults) where
  unfoldable pub handle_create_whitelist : Payload → State → Answer × State
  handle_create_whitelist data_ state =
      with_payload (parse_whitelist_create python data_) state (λ w.
        finish whitelist_address faults.redis_breaks state.service
          (create_whitelist faults.database_breaks w state.lists))

  unfoldable pub handle_create_blacklist : Payload → State → Answer × State
  handle_create_blacklist data_ state =
      with_payload (parse_blacklist_create python data_) state (λ b.
        finish blacklist_address faults.redis_breaks state.service
          (create_blacklist faults.database_breaks b state.lists))

  unfoldable pub handle_update_whitelist : ℕ → Payload → State → Answer × State
  handle_update_whitelist id data_ state =
      with_payload (parse_update_payload python data_ whitelist_update_fields) state (λ changes.
        finish whitelist_address faults.redis_breaks state.service
          (update_whitelist faults.database_breaks id changes state.lists))

  unfoldable pub handle_update_blacklist : ℕ → Payload → State → Answer × State
  handle_update_blacklist id data_ state =
      with_payload (parse_update_payload python data_ blacklist_update_fields) state (λ changes.
        finish blacklist_address faults.redis_breaks state.service
          (update_blacklist faults.database_breaks id changes state.lists))

  unfoldable pub handle_delete_whitelist : ℕ → State → Answer × State
  handle_delete_whitelist id state =
      finish whitelist_address faults.redis_breaks state.service
        (delete_whitelist faults.database_breaks id state.lists)

  unfoldable pub handle_delete_blacklist : ℕ → State → Answer × State
  handle_delete_blacklist id state =
      finish blacklist_address faults.redis_breaks state.service
        (delete_blacklist faults.database_breaks id state.lists)

  -- The route that serves a request.
  unfoldable pub handle : Request → State → Answer × State
  handle (post_whitelist data_) state = handle_create_whitelist data_ state
  handle (post_blacklist data_) state = handle_create_blacklist data_ state
  handle (put_whitelist id data_) state = handle_update_whitelist id data_ state
  handle (put_blacklist id data_) state = handle_update_blacklist id data_ state
  handle (remove_whitelist id) state = handle_delete_whitelist id state
  handle (remove_blacklist id) state = handle_delete_blacklist id state
