-- ===== src/Lifecycle.antt =====
-- How long an address stays active: the nightly `cleanup_expired_ips` of
-- collector/scheduler/cleanup.py, and `IPExpiryService` of app/core/services/expiry_service.py, on
-- the table `blacklist_ips`. A day is its ordinal number, `three_months_ago` the day that SQL
-- computes, and the database raises no error.
mod Tests
pub mod Cleanup
pub mod Expiry
use blacklist.Prelude.{
  ℕ, zero, suc, ◌+◌, ◌-◌, Bool, true, false, ◌&&◌, ◌||◌, not, Option, none, some, List, [], ◌∷◌,
  ◌++◌, leb, ltb, ◌==◌, if◌then◌else◌, String, str_eq, length, map,
}
use blacklist.Prelude.Python.{empty_text}
use blacklist.Storage.{Row, is_past}

-- `UPDATE blacklist_ips SET … WHERE …`, with the cursor's row count.
unfoldable pub update : (Row → Bool) → (Row → Row) → List Row → ℕ × List Row
update where_ set [] = (0, [])
update where_ set (r ∷ rows) =
    let (n, rest) = update where_ set rows in
    if where_ r then (suc n, set r ∷ rest) else (n, r ∷ rest)

unfoldable pub count : (Row → Bool) → List Row → ℕ
count where_ [] = 0
count where_ (r ∷ rows) = let n = count where_ rows in if where_ r then suc n else n

abbrev pub with_active : Bool → Row → Row
with_active b r = record r { is_active = b }

-- `removal_date >= today`, which a missing date does not pass.
abbrev pub is_future : ℕ → Option ℕ → Bool
is_future today none = false
is_future today (some day) = leb today day

abbrev is_none {ℓ} : {A : Type ℓ} → Option A → Bool
is_none none = true
is_none (some a) = false

-- The three updates of the cleanup.
abbrev pub is_expired : ℕ → Row → Bool
is_expired today r = r.is_active && is_past today r.removal_date

abbrev pub is_old : ℕ → ℕ → Row → Bool
is_old three_months_ago today r =
    r.is_active
    && is_past three_months_ago r.detection_date
    && (is_none r.removal_date || is_past today r.removal_date)

abbrev pub is_wrongly_inactive : ℕ → Row → Bool
is_wrongly_inactive today r = not r.is_active && is_future today r.removal_date

pub record Cleaned : Type 0 where
  pub expired_count : ℕ
  pub old_count : ℕ
  pub reactivated_count : ℕ
  pub active_count : ℕ

unfoldable pub cleanup_expired_ips : ℕ → ℕ → List Row → Cleaned × List Row
cleanup_expired_ips three_months_ago today rows =
    let (expired_count, rows₁) = update (is_expired today) (with_active false) rows in
    let (old_count, rows₂) = update (is_old three_months_ago today) (with_active false) rows₁ in
    let (reactivated_count, rows₃) = update (is_wrongly_inactive today) (with_active true) rows₂ in
    (
      record {
        expired_count = expired_count;
        old_count = old_count;
        reactivated_count = reactivated_count;
        active_count = count (λ r. r.is_active) rows₃;
      },
      rows₃,
    )

-- The ids of the selected rows, and `id = ANY(ids)`.
unfoldable pub select_ids : (Row → Bool) → List Row → List ℕ
select_ids where_ [] = []
select_ids where_ (r ∷ rows) =
    let ids = select_ids where_ rows in if where_ r then r.id ∷ ids else ids

unfoldable pub any_id : List ℕ → ℕ → Bool
any_id [] id = false
any_id (i ∷ ids) id = i == id || any_id ids id

-- `check_and_deactivate_expired_ips`: the count in its answer, and the table.
unfoldable pub deactivate_selected : List ℕ → List Row → ℕ × List Row
deactivate_selected [] rows = (0, rows)
deactivate_selected (i ∷ ids) rows = update (λ r. any_id (i ∷ ids) r.id) (with_active false) rows

unfoldable pub check_and_deactivate_expired_ips : ℕ → List Row → ℕ × List Row
check_and_deactivate_expired_ips today rows =
    deactivate_selected (select_ids (is_expired today) rows) rows

pub record Stats : Type 0 where
  pub total_ips : ℕ
  pub active_ips : ℕ
  pub inactive_ips : ℕ
  pub pending_expiry : ℕ
  pub future_expiry : ℕ

unfoldable pub get_expiry_stats : ℕ → List Row → Stats
get_expiry_stats today rows = record {
  total_ips = count (λ r. true) rows;
  active_ips = count (λ r. r.is_active) rows;
  inactive_ips = count (λ r. not r.is_active) rows;
  pending_expiry = count (is_expired today) rows;
  future_expiry = count (λ r. is_future today r.removal_date) rows;
}

pub data Reply : Type 0 where
  not_found already_inactive : Reply
  expired : String → String → Reply

-- The first row of the query: the address, and the source where one is given.
abbrev pub is_asked_for : String → Option String → Row → Bool
is_asked_for ip_address none r = str_eq r.ip_address ip_address
is_asked_for ip_address (some source) r =
    if empty_text source
    then str_eq r.ip_address ip_address
    else str_eq r.ip_address ip_address && str_eq r.source source

unfoldable pub find : (Row → Bool) → List Row → Option Row
find where_ [] = none
find where_ (r ∷ rows) = if where_ r then some r else find where_ rows

abbrev pub expire : ℕ → Row → Row
expire today r = record r { is_active = false; removal_date = some today }

unfoldable pub manually_expire_ip : ℕ → String → Option String → List Row → Reply × List Row
manually_expire_ip today ip_address source rows =
    elim (find (is_asked_for ip_address source) rows) [
      | none ↦ (not_found, rows)
      | some r ↦
          if r.is_active
          then (expired ip_address r.source, (update (λ q. q.id == r.id) (expire today) rows).1)
          else (already_inactive, rows)
    ]
