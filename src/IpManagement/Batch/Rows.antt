-- ===== src/IpManagement/Batch/Rows.antt =====
-- A batch changes what the tables say of its own addresses only.
use blacklist.Prelude.{
  ℕ, ◌+◌, ◌≡◌, refl, sym, ◌∙◌, ap, subst, inl, inr, true, false, Bool-cases, ◌&&◌, String, List, [],
  ◌∷◌, str_eq, eq_iff, arith,
}
use blacklist.Decision.Invalidation.{contains}
use blacklist.IpManagement.{Change}
use blacklist.IpManagement.Repository.{BlacklistEntry, Lists, set_blacklist_column, set_columns}
use blacklist.IpManagement.Routes.{blacklist_address}
use blacklist.IpManagement.Policy.{keeps_key, set_blacklist_columns-key}
use blacklist.IpManagement.Locality.{
  upsert_row-other, entry_of, entry_step, entry_of-fold, entry_step-skips,
}
use blacklist.IpManagement.Writes.{SameFor}
use blacklist.IpManagement.Batch.{
  Statement, is_address, batch_entry, delete_rows, update_rows, add_one, remove_one, update_one,
  for_each,
}

entry_of-skip :
    (other : String) (q : BlacklistEntry) (rows : List BlacklistEntry)
    → str_eq q.ip_address other ≡ false
    → entry_of other (q ∷ rows) ≡ entry_of other rows
entry_of-skip other q rows h =
    entry_of-fold other q rows ∙ entry_step-skips other q (entry_of other rows) h

entry_of-same :
    (other : String) (q : BlacklistEntry) (xs ys : List BlacklistEntry)
    → entry_of other xs ≡ entry_of other ys
    → entry_of other (q ∷ xs) ≡ entry_of other (q ∷ ys)
entry_of-same other q xs ys e =
    entry_of-fold other q xs ∙ ap (entry_step other q) e ∙ sym (entry_of-fold other q ys)

module _ (ip other : String) (away : str_eq ip other ≡ false) where
  at_other : (q : BlacklistEntry) → is_address ip q ≡ true → str_eq q.ip_address other ≡ false
  at_other q found =
      subst (λ s. str_eq s other ≡ false) (sym ((eq_iff q.ip_address ip).0 found)) away

  delete_rows-other :
      (rows : List BlacklistEntry)
      → entry_of other (delete_rows (is_address ip) rows).1 ≡ entry_of other rows
  unfolding delete_rows
  delete_rows-other [] = refl
  delete_rows-other (q ∷ rows) = elim (Bool-cases (is_address ip q)) [
    | inl e ↦ rw e (delete_rows-other rows ∙ sym (entry_of-skip other q rows (at_other q e)))
    | inr e ↦ rw e (entry_of-same other q _ rows (delete_rows-other rows))
  ]

  update_rows-other :
      (set : BlacklistEntry → BlacklistEntry) (rows : List BlacklistEntry)
      → ((q : BlacklistEntry) → (set q).ip_address ≡ q.ip_address)
      → entry_of other (update_rows (is_address ip) set rows).1 ≡ entry_of other rows
  unfolding update_rows
  update_rows-other set [] keeps = refl
  update_rows-other set (q ∷ rows) keeps = elim (Bool-cases (is_address ip q)) [
    | inl e ↦
        let moved : str_eq (set q).ip_address other ≡ false =
          subst (λ s. str_eq s other ≡ false) (sym (keeps q)) (at_other q e) in
        rw e (
          entry_of-skip other (set q) _ moved
          ∙ update_rows-other set rows keeps
          ∙ sym (entry_of-skip other q rows (at_other q e)))
    | inr e ↦ rw e (entry_of-same other q _ rows (update_rows-other set rows keeps))
  ]

  pub add_one-SameFor :
      (today : ℕ) (reason country : String) (t : Lists)
      → SameFor other t (add_one today reason country ip t).1
  unfolding add_one SameFor batch_entry
  add_one-SameFor today reason country t = (
    refl,
    upsert_row-other blacklist_address (entry_of other) (entry_step other) other
        (entry_of-fold other) (entry_step-skips other)
        (λ q. is_address ip q && str_eq q.source "BATCH") (λ q. q)
        (batch_entry today t.next_blacklist_id reason country ip) t.blacklist
        (λ q e. at_other q (ground arith)) (λ q. refl) away,
  )

  pub remove_one-SameFor : (t : Lists) → SameFor other t (remove_one ip t).1
  unfolding remove_one SameFor
  remove_one-SameFor t = (refl, delete_rows-other t.blacklist)

  pub update_one-SameFor :
      (changes : List Change) (t : Lists)
      → keeps_key changes ≡ true
      → SameFor other t (update_one changes ip t).1
  unfolding update_one SameFor
  update_one-SameFor changes t kept = (
    refl,
    update_rows-other (set_columns set_blacklist_column changes) t.blacklist
        (λ q. (set_blacklist_columns-key changes q kept).0),
  )

SameFor-trans : (ip : String) (t u v : Lists) → SameFor ip t u → SameFor ip u v → SameFor ip t v
unfolding SameFor
SameFor-trans ip t u v e f = (f.0 ∙ e.0, f.1 ∙ e.1)

SameFor-refl : (ip : String) (t : Lists) → SameFor ip t t
unfolding SameFor
SameFor-refl ip t = (refl, refl)

-- Every statement of the batch leaves the other addresses.
abbrev pub IsLocal : Statement → Type 0
IsLocal statement =
    (ip other : String) → str_eq ip other ≡ false → (t : Lists) → SameFor other t (statement ip t).1

pub for_each-SameFor :
    (statement : Statement) (ips : List String) (count : ℕ) (t : Lists) (other : String)
    → IsLocal statement
    → contains other ips ≡ false
    → SameFor other t (for_each statement ips count t).1
unfolding for_each
for_each-SameFor statement [] count t other local absent = SameFor-refl other t
for_each-SameFor statement (ip ∷ ips) count t other local absent =
    SameFor-trans other t (statement ip t).1 _ (local ip other (ground arith) t) (
      for_each-SameFor statement ips (count + (statement ip t).0) (statement ip t).1 other local
        (ground arith))
