-- ===== src/IpManagement/Batch.antt =====
-- The batch routes, app/core/routes/api/blacklist/batch.py, with `parse_ip_batch` of
-- app/core/utils/input_security.py. The inserted rows take the defaults of the table
-- `blacklist_ips`; `today` is CURRENT_DATE.
pub mod Rows
pub mod Requests
use blacklist.Prelude.{
  ℕ, suc, ◌+◌, Bool, true, false, ◌&&◌, ◌||◌, Option, none, some, String, List, [], ◌∷◌, ltb,
  length, str_eq, if◌then◌else◌, ◌++◌,
}
use blacklist.Prelude.Dict.{lookup}
use blacklist.Prelude.Python.{empty_text}
use blacklist.Decision.{Service, invalidate_ip_caches}
use blacklist.IpManagement.{
  Python, Value, text, null, Payload, Parsed, refused, accepted, and_then, parse_ip_value, text_or,
  Change, set_reason, set_country,
}
use blacklist.IpManagement.Repository.{
  BlacklistEntry, Lists, set_blacklist_column, set_columns, upsert_row,
}
use blacklist.IpManagement.Routes.{
  Answer, bad_request, database_error, done, invalidation_failed, State, Faults,
}

-- The body of a batch: its `ips`, none where they are no list, and its other fields.
pub record Batch : Type 0 where
  pub ips : Option (List Value)
  pub fields : Payload

unfoldable pub parse_each : Python → List Value → Parsed (List String)
parse_each python [] = accepted []
parse_each python (value ∷ values) =
    and_then (parse_ip_value python value)
      (λ ip. and_then (parse_each python values) (λ ips. accepted (ip ∷ ips)))

unfoldable pub parse_ip_batch : Python → Option (List Value) → Parsed (List String)
parse_ip_batch python none = refused "ips"
parse_ip_batch python (some []) = refused "ips"
parse_ip_batch python (some (value ∷ values)) =
    if ltb 1_000 (length (value ∷ values))
    then refused "BATCH_TOO_LARGE"
    else parse_each python (value ∷ values)

module _ (python : Python) where
  unfoldable pub country_text : String → Parsed String
  country_text s =
      if empty_text (python.strip s) || ltb 10 (python.len s)
      then refused "country"
      else accepted (python.upper (python.strip s))

  unfoldable pub batch_country : Option Value → Parsed String
  batch_country none = country_text "UNKNOWN"
  batch_country (some (text s)) = country_text s
  batch_country (some _) = refused "country"

  -- The changes of an update: a missing field and a null make none.
  unfoldable pub reason_change : Option Value → Parsed (List Change)
  reason_change none = accepted []
  reason_change (some null) = accepted []
  reason_change (some value) =
      and_then (text_or python "reason" "" (some value)) (λ s. accepted (set_reason s ∷ []))

  unfoldable pub country_change : Option Value → Parsed (List Change)
  country_change none = accepted []
  country_change (some null) = accepted []
  country_change (some value) =
      and_then (batch_country (some value)) (λ s. accepted (set_country (some s) ∷ []))

-- INSERT ... ON CONFLICT DO NOTHING of one address.
unfoldable pub batch_entry : ℕ → ℕ → String → String → String → BlacklistEntry
batch_entry today id reason country ip = record {
  id = id;
  ip_address = ip;
  reason = some reason;
  source = "BATCH";
  data_source = some "REGTECH";
  confidence_level = some 50;
  detection_count = some 1;
  is_active = true;
  country = some country;
  detection_date = some today;
  removal_date = none;
}

unfoldable pub has_row : (BlacklistEntry → Bool) → List BlacklistEntry → Bool
has_row where_ [] = false
has_row where_ (q ∷ rows) = where_ q || has_row where_ rows

-- DELETE and UPDATE of all rows that meet a condition, with the cursor's row count.
unfoldable pub delete_rows : (BlacklistEntry → Bool) → List BlacklistEntry → ℕ × List BlacklistEntry
delete_rows where_ [] = (0, [])
delete_rows where_ (q ∷ rows) =
    let (n, rest) = delete_rows where_ rows in if where_ q then (suc n, rest) else (n, q ∷ rest)

unfoldable pub update_rows :
    (BlacklistEntry → Bool)
    → (BlacklistEntry → BlacklistEntry)
    → List BlacklistEntry
    → ℕ × List BlacklistEntry
update_rows where_ set [] = (0, [])
update_rows where_ set (q ∷ rows) =
    let (n, rest) = update_rows where_ set rows in
    if where_ q then (suc n, set q ∷ rest) else (n, q ∷ rest)

abbrev pub is_address : String → BlacklistEntry → Bool
is_address ip q = str_eq q.ip_address ip

-- The statement of one address: what it counts, and the tables.
abbrev pub Statement : Type 0
Statement = String → Lists → ℕ × Lists

unfoldable pub add_one : ℕ → String → String → Statement
add_one today reason country ip t =
    let where_ = λ (q : BlacklistEntry). is_address ip q && str_eq q.source "BATCH" in
    (
      if has_row where_ t.blacklist then 0 else 1,
      record t {
        blacklist =
            (upsert_row where_ (λ q. q) (batch_entry today t.next_blacklist_id reason country ip)
              t.blacklist).1;
        next_blacklist_id = suc t.next_blacklist_id;
      },
    )

unfoldable pub remove_one : Statement
remove_one ip t =
    let (n, rows) = delete_rows (is_address ip) t.blacklist in (n, record t { blacklist = rows })

unfoldable pub update_one : List Change → Statement
update_one changes ip t =
    let (n, rows) =
      update_rows (is_address ip) (set_columns set_blacklist_column changes) t.blacklist in
    (n, record t { blacklist = rows })

-- The loop over the addresses, and the sum of its counts.
unfoldable pub for_each : Statement → List String → ℕ → Lists → ℕ × Lists
for_each statement [] count t = (count, t)
for_each statement (ip ∷ ips) count t =
    let (n, t') = statement ip t in for_each statement ips (count + n) t'

-- A count of rows, or an error.
pub data BatchAnswer : Type 0 where
  batch_refused : String → BatchAnswer
  batch_failed batch_not_invalidated : BatchAnswer
  batch_done : ℕ → BatchAnswer

-- One transaction for the whole batch, then the keys of its addresses.
unfoldable pub run_batch : Faults → Statement → List String → State → BatchAnswer × State
run_batch faults statement ips state =
    let (n, t) = for_each statement ips 0 state.lists in
    if faults.database_breaks
    then (batch_failed, state)
    else (if state.service.has_redis && faults.redis_breaks
        then (batch_not_invalidated, record { lists = t; service = state.service })
        else (batch_done n, record { lists = t; service = invalidate_ip_caches ips state.service }))

unfoldable pub with_batch {ℓ} :
    {A : Type ℓ} → Parsed A → State → (A → BatchAnswer × State) → BatchAnswer × State
with_batch (refused field) state go = (batch_refused field, state)
with_batch (accepted a) state go = go a

-- Without a change there is nothing to update.
unfoldable pub with_changes :
    Faults → List Change → List Change → List String → State → BatchAnswer × State
with_changes faults [] [] ips state = (batch_refused "reason or country", state)
with_changes faults (c ∷ changes) more ips state =
    run_batch faults (update_one (c ∷ changes ++ more)) ips state
with_changes faults [] (c ∷ more) ips state = run_batch faults (update_one (c ∷ more)) ips state

module _ (python : Python) (today : ℕ) (faults : Faults) where
  unfoldable pub batch_add_blacklist : Batch → State → BatchAnswer × State
  batch_add_blacklist batch state = with_batch (parse_ip_batch python batch.ips) state (λ ips.
      with_batch (text_or python "reason" "Batch import" (lookup "reason" batch.fields)) state
        (λ why.
          with_batch (batch_country python (lookup "country" batch.fields)) state
            (λ land. run_batch faults (add_one today why land) ips state)))

  unfoldable pub batch_remove_blacklist : Batch → State → BatchAnswer × State
  batch_remove_blacklist batch state =
      with_batch (parse_ip_batch python batch.ips) state
        (λ ips. run_batch faults remove_one ips state)

  unfoldable pub batch_update_blacklist : Batch → State → BatchAnswer × State
  batch_update_blacklist batch state = with_batch (parse_ip_batch python batch.ips) state (λ ips.
      with_batch (reason_change python (lookup "reason" batch.fields)) state (λ changes.
        with_batch (country_change python (lookup "country" batch.fields)) state
          (λ more. with_changes faults changes more ips state)))
