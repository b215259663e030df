-- ===== src/Lifecycle/Cleanup.antt =====
-- What the cleanup leaves active, alone and after the service that expires addresses.
use blacklist.Prelude.{
  ℕ, suc, ◌≡◌, inl, inr, refl, ap, Bool, true, false, Bool-cases, ◌&&◌, not, none, some, List, [],
  ◌∷◌, leb, if◌then◌else◌, map, arith,
}
use blacklist.Storage.{Row, is_past}
use blacklist.Lifecycle.{
  update, count, with_active, is_expired, is_old, is_wrongly_inactive, cleanup_expired_ips,
}

abbrev pub changed : (Row → Bool) → (Row → Row) → Row → Row
changed where_ set r = if where_ r then set r else r

pub update-map :
    (where_ : Row → Bool) (set : Row → Row) (rows : List Row)
    → (update where_ set rows).1 ≡ map (changed where_ set) rows
unfolding update
update-map where_ set [] = refl
update-map where_ set (r ∷ rows) = elim (Bool-cases (where_ r)) [
  | inl e ↦ rw e (ap (λ xs. set r ∷ xs) (update-map where_ set rows))
  | inr e ↦ rw e (ap (λ xs. r ∷ xs) (update-map where_ set rows))
]

update-count :
    (where_ : Row → Bool) (set : Row → Row) (rows : List Row)
    → (update where_ set rows).0 ≡ count where_ rows
unfolding update count
update-count where_ set [] = refl
update-count where_ set (r ∷ rows) = elim (Bool-cases (where_ r)) [
  | inl e ↦ rw e (ap suc (update-count where_ set rows))
  | inr e ↦ rw e (update-count where_ set rows)
]

map-map : (f g : Row → Row) (rows : List Row) → map f (map g rows) ≡ map (λ r. f (g r)) rows
map-map f g [] = refl
map-map f g (r ∷ rows) = ap (λ xs. f (g r) ∷ xs) (map-map f g rows)

map-ap : (f g : Row → Row) (rows : List Row) → ((r : Row) → f r ≡ g r) → map f rows ≡ map g rows
map-ap f g [] same = refl
map-ap f g (r ∷ rows) same = rw (same r) (ap (λ xs. g r ∷ xs) (map-ap f g rows same))

-- What an address's row should be: active up to its removal date; without one, as it was, up to
-- three months from its detection, or for ever where that is not known.
abbrev pub is_due : ℕ → ℕ → Row → Bool
is_due three_months_ago today r = elim r.removal_date [
  | some day ↦ leb today day
  | none ↦ r.is_active && not (is_past three_months_ago r.detection_date)
]

unfoldable pub settled : ℕ → ℕ → Row → Row
settled three_months_ago today r = record r { is_active = is_due three_months_ago today r }

changed-active :
    (where_ : Row → Bool) (b : Bool) (r : Row)
    → changed where_ (with_active b) r ≡ with_active (if where_ r then b else r.is_active) r
changed-active where_ b r = elim (Bool-cases (where_ r)) [ inl e ↦ rw e refl | inr e ↦ rw e refl ]

steps-settled :
    (three_months_ago today : ℕ) (r : Row)
    → changed (is_wrongly_inactive today) (with_active true) (
        changed
          (is_old three_months_ago today)
          (with_active false)
          (changed (is_expired today) (with_active false) r))
      ≡ settled three_months_ago today r
unfolding settled
steps-settled three_months_ago today r =
    rw
      (
        changed-active (is_expired today) false r,
        changed-active (is_old three_months_ago today) false
            (with_active (if is_expired today r then false else r.is_active) r),
        changed-active (is_wrongly_inactive today) true (
            with_active
              (if is_old three_months_ago today
                  (with_active (if is_expired today r then false else r.is_active) r)
                then false
                else (if is_expired today r then false else r.is_active))
              r),
      )
      (ap (λ b. with_active b r) (ground arith))

-- The three updates of the cleanup come to one pass: a row with a removal date becomes active if
-- the date is today or later and inactive if it is past; a row without one becomes inactive if its
-- detection date is more than three months past, and otherwise stays as it is, so that a row
-- without either date stays active.
pub cleanup_expired_ips-settled :
    (three_months_ago today : ℕ) (rows : List Row)
    → (cleanup_expired_ips three_months_ago today rows).1
      ≡ map (settled three_months_ago today) rows
unfolding cleanup_expired_ips
cleanup_expired_ips-settled three_months_ago today rows =
    rw
      (
        update-map (is_expired today) (with_active false) rows,
        update-map (is_old three_months_ago today) (with_active false)
            (map (changed (is_expired today) (with_active false)) rows),
        update-map (is_wrongly_inactive today) (with_active true) (
            map (changed (is_old three_months_ago today) (with_active false))
              (map (changed (is_expired today) (with_active false)) rows)),
        map-map (changed (is_old three_months_ago today) (with_active false))
            (changed (is_expired today) (with_active false)) rows,
        map-map (changed (is_wrongly_inactive today) (with_active true))
            (λ r.
              changed (is_old three_months_ago today) (with_active false)
                (changed (is_expired today) (with_active false) r))
            rows,
      )
      (map-ap _ (settled three_months_ago today) rows (steps-settled three_months_ago today))

settled-settled :
    (three_months_ago today : ℕ) (r : Row)
    → settled three_months_ago today (settled three_months_ago today r)
      ≡ settled three_months_ago today r
unfolding settled
settled-settled three_months_ago today r = ap (λ b. with_active b r) (ground arith)

-- A second cleanup on the same day changes nothing.
pub cleanup_expired_ips_twice :
    (three_months_ago today : ℕ) (rows : List Row)
    → (cleanup_expired_ips three_months_ago today
        (cleanup_expired_ips three_months_ago today rows).1).1
      ≡ (cleanup_expired_ips three_months_ago today rows).1
cleanup_expired_ips_twice three_months_ago today rows =
    rw
      (
        cleanup_expired_ips-settled three_months_ago today rows,
        cleanup_expired_ips-settled three_months_ago today
            (map (settled three_months_ago today) rows),
        map-map (settled three_months_ago today) (settled three_months_ago today) rows,
      )
      (map-ap _ (settled three_months_ago today) rows (settled-settled three_months_ago today))
