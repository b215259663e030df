-- ===== src/Lifecycle/Expiry.antt =====
-- `IPExpiryService`: the expiry by selected ids, its statistics, and a manual expiry that the
-- cleanup undoes on the same day.
use blacklist.Prelude.{
  ℕ, suc, ◌+◌, ◌≡◌, inl, inr, refl, sym, ◌∙◌, ap, Bool, true, false, Bool-cases, ◌||◌, Option, none,
  some, List, [], ◌∷◌, leb, ◌==◌, String, map, arith,
}
use blacklist.Storage.{Row}
use blacklist.Lifecycle.{
  update, count, with_active, is_future, is_expired, cleanup_expired_ips, select_ids, any_id,
  deactivate_selected, check_and_deactivate_expired_ips, get_expiry_stats, is_asked_for, find,
  expire, manually_expire_ip,
}
use blacklist.Lifecycle.Cleanup.{changed, update-map, settled, cleanup_expired_ips-settled}

-- The rows have ids that differ from each other and from `ids`.
pub data HasIds : List ℕ → List Row → Type 0 where
  no_rows : {ids : List ℕ} → HasIds ids []
  with_row :
      {ids : List ℕ} {r : Row} {rows : List Row}
      → any_id ids r.id ≡ false
      → HasIds (r.id ∷ ids) rows
      → HasIds ids (r ∷ rows)

any_id-HasIds :
    (ids : List ℕ) (where_ : Row → Bool) (rows : List Row) (i : ℕ)
    → HasIds ids rows
    → any_id ids i ≡ true
    → any_id (select_ids where_ rows) i ≡ false
unfolding any_id select_ids
any_id-HasIds ids where_ [] i no_rows there = refl
any_id-HasIds ids where_ (r ∷ rows) i (with_row new has) there =
    ground (arith, any_id-HasIds (r.id ∷ ids) where_ rows i has)

abbrev counted : Row → ℕ × List Row → ℕ × List Row
counted r (n, rows) = (suc n, r ∷ rows)

abbrev kept : Row → ℕ × List Row → ℕ × List Row
kept r (n, rows) = (n, r ∷ rows)

-- `ids` are those of earlier rows, in `seen`, and those selected from `rows`.
update-any_id :
    (where_ : Row → Bool) (set : Row → Row) (ids before seen : List ℕ) (rows : List Row)
    → HasIds seen rows
    → ((i : ℕ) → any_id before i ≡ true → any_id seen i ≡ true)
    → ((i : ℕ) → any_id ids i ≡ (any_id before i || any_id (select_ids where_ rows) i))
    → update (λ r. any_id ids r.id) set rows ≡ update where_ set rows
unfolding update any_id select_ids
update-any_id where_ set ids before seen [] no_rows inside all = refl
update-any_id where_ set ids before seen (r ∷ rows) (with_row new has) inside all =
    elim (Bool-cases (where_ r)) [
      | inl e ↦
          let here : any_id ids r.id ≡ true = ground (arith, all r.id) in
          rw (here, e)
            (ap (λ (p : ℕ × List Row). counted (set r) p)
              (update-any_id where_ set ids (r.id ∷ before) (r.id ∷ seen) rows has
                (λ i m. ground (arith, inside i)) (λ i. ground (arith, all i))))
      | inr e ↦
          let not_before : any_id before r.id ≡ false = ground (arith, inside r.id) in
          let not_later : any_id (select_ids where_ rows) r.id ≡ false =
            any_id-HasIds (r.id ∷ seen) where_ rows r.id has (ground arith) in
          let here : any_id ids r.id ≡ false = ground (arith, all r.id) in
          rw (here, e)
            (ap (λ (p : ℕ × List Row). kept r p)
              (update-any_id where_ set ids before (r.id ∷ seen) rows has
                (λ i m. ground (arith, inside i)) (λ i. ground (arith, all i))))
    ]

update-no_id :
    (set : Row → Row) (rows : List Row) → update (λ r. any_id [] r.id) set rows ≡ (0, rows)
unfolding update any_id
update-no_id set [] = refl
update-no_id set (r ∷ rows) = ap (λ (p : ℕ × List Row). kept r p) (update-no_id set rows)

deactivate_selected_lem :
    (ids : List ℕ) (rows : List Row)
    → deactivate_selected ids rows ≡ update (λ r. any_id ids r.id) (with_active false) rows
unfolding deactivate_selected
deactivate_selected_lem [] rows = sym (update-no_id (with_active false) rows)
deactivate_selected_lem (i ∷ ids) rows = refl

-- With ids that differ, the update by the selected ids is the one update of the cleanup.
check_and_deactivate_lem :
    (today : ℕ) (rows : List Row)
    → HasIds [] rows
    → check_and_deactivate_expired_ips today rows
      ≡ update (is_expired today) (with_active false) rows
unfolding check_and_deactivate_expired_ips any_id
check_and_deactivate_lem today rows has =
    deactivate_selected_lem (select_ids (is_expired today) rows) rows
    ∙ update-any_id (is_expired today) (with_active false) (select_ids (is_expired today) rows) []
        [] rows has (λ i m. m) (λ i. refl)

expiry_counts :
    (today : ℕ) (rows : List Row)
    → let after = update (is_expired today) (with_active false) rows in
      (after.0 ≡ count (is_expired today) rows)
      × (count (is_expired today) after.1 ≡ 0)
      × (count (λ r. r.is_active) after.1 + after.0 ≡ count (λ r. r.is_active) rows)
      × (count (λ r. is_future today r.removal_date) after.1
          ≡ count (λ r. is_future today r.removal_date) rows)
unfolding update count
expiry_counts today [] = ground arith
expiry_counts today (r ∷ rows) = ground (arith, expiry_counts today rows)

-- An expiry run on rows with different ids deactivates exactly the addresses that the statistics
-- show as pending: their number is its count, none is pending after it, so many fewer are active,
-- and those with a later removal date are as many as before.
pub check_and_deactivate-stats :
    (today : ℕ) (rows : List Row)
    → HasIds [] rows
    → ((check_and_deactivate_expired_ips today rows).0
        ≡ (get_expiry_stats today rows).pending_expiry)
      × ((get_expiry_stats today (check_and_deactivate_expired_ips today rows).1).pending_expiry
          ≡ 0)
      × ((get_expiry_stats today (check_and_deactivate_expired_ips today rows).1).active_ips
            + (check_and_deactivate_expired_ips today rows).0
          ≡ (get_expiry_stats today rows).active_ips)
      × ((get_expiry_stats today (check_and_deactivate_expired_ips today rows).1).future_expiry
          ≡ (get_expiry_stats today rows).future_expiry)
unfolding get_expiry_stats
check_and_deactivate-stats today rows has =
    rw (check_and_deactivate_lem today rows has) (expiry_counts today rows)

find-map :
    (where_ : Row → Bool) (f : Row → Row) (rows : List Row) (r : Row)
    → ((q : Row) → where_ (f q) ≡ where_ q)
    → find where_ rows ≡ some r
    → find where_ (map f rows) ≡ some (f r)
unfolding find
find-map where_ f [] r same h = ground arith
find-map where_ f (q ∷ rows) r same h = elim (Bool-cases (where_ q)) [
  | inl e ↦ let here : q ≡ r = ground arith in rw (same q, e) (ap (λ x. some (f x)) here)
  | inr e ↦ rw (same q, e) (find-map where_ f rows r same (ground arith))
]

is_asked_for-changed :
    (ip_address : String) (source : Option String) (where_ : Row → Bool) (today : ℕ) (q : Row)
    → is_asked_for ip_address source (changed where_ (expire today) q)
      ≡ is_asked_for ip_address source q
is_asked_for-changed ip_address source where_ today q = elim (Bool-cases (where_ q)) [
  | inl e ↦ rw e (unchanged source)
  | inr e ↦ rw e refl
]
  where
    unchanged :
        (s : Option String)
        → is_asked_for ip_address s (expire today q) ≡ is_asked_for ip_address s q
    unchanged none = refl
    unchanged (some s) = refl

is_asked_for-settled :
    (ip_address : String) (source : Option String) (three_months_ago day : ℕ) (q : Row)
    → is_asked_for ip_address source (settled three_months_ago day q)
      ≡ is_asked_for ip_address source q
unfolding settled
is_asked_for-settled ip_address none three_months_ago day q = refl
is_asked_for-settled ip_address (some s) three_months_ago day q = refl

expired_row : (today : ℕ) (r : Row) → changed (λ q. q.id == r.id) (expire today) r ≡ expire today r
expired_row today r = rw here refl
  where
    here : (r.id == r.id) ≡ true
    here = ground arith

settled-expire :
    (three_months_ago day today : ℕ) (r : Row)
    → settled three_months_ago day (expire today r)
      ≡ record r { is_active = leb day today; removal_date = some today }
unfolding settled
settled-expire three_months_ago day today r = refl

manually_expire_rows :
    (today : ℕ) (ip_address : String) (source : Option String) (rows : List Row) (r : Row)
    → find (is_asked_for ip_address source) rows ≡ some r
    → r.is_active ≡ true
    → (manually_expire_ip today ip_address source rows).1
      ≡ map (changed (λ q. q.id == r.id) (expire today)) rows
unfolding manually_expire_ip
manually_expire_rows today ip_address source rows r found active =
    rw (found, active, manually_expire_ip) (update-map (λ q. q.id == r.id) (expire today) rows)

-- An active address that is expired by hand is inactive after the cleanup of any later day, but
-- the cleanup of the same day makes it active again: its removal date, today, is not past yet.
pub cleanup-manually_expire_ip :
    (today day three_months_ago : ℕ) (ip_address : String) (source : Option String)
    (rows : List Row) (r : Row)
    → find (is_asked_for ip_address source) rows ≡ some r
    → r.is_active ≡ true
    → find
        (is_asked_for ip_address source)
        (cleanup_expired_ips three_months_ago day
          (manually_expire_ip today ip_address source rows).1).1
      ≡ some (record r { is_active = leb day today; removal_date = some today })
cleanup-manually_expire_ip today day three_months_ago ip_address source rows r found active =
    rw
      (
        manually_expire_rows today ip_address source rows r found active,
        cleanup_expired_ips-settled three_months_ago day
            (map (changed (λ q. q.id == r.id) (expire today)) rows),
      )
      (find-map (is_asked_for ip_address source) (settled three_months_ago day)
          (map (changed (λ q. q.id == r.id) (expire today)) rows)
          (changed (λ q. q.id == r.id) (expire today) r)
          (is_asked_for-settled ip_address source three_months_ago day)
          (find-map (is_asked_for ip_address source) (changed (λ q. q.id == r.id) (expire today))
            rows r (is_asked_for-changed ip_address source (λ q. q.id == r.id) today) found)
        ∙ ap some (
            ap (settled three_months_ago day) (expired_row today r)
            ∙ settled-expire three_months_ago day today r))
