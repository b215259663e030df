-- ===== src/IpManagement/Effects.antt =====
-- What a posted address comes to in the tables.
use blacklist.Prelude.{
  suc, ◌≡◌, refl, ap, inl, inr, Bool, true, false, Bool-cases, ◌&&◌, ◌||◌, String, List, [], ◌∷◌,
  str_eq, eq_iff, ltb, if◌then◌else◌, arith,
}
use blacklist.Decision.{respond, is_listed, count_whitelist_by_ip, get_blacklist_entry}
use blacklist.IpManagement.{WhitelistCreate, BlacklistCreate}
use blacklist.IpManagement.Repository.{
  WhitelistEntry, BlacklistEntry, Lists, decided_on, create_whitelist, create_blacklist,
  merge_whitelist, whitelist_entry, merge_blacklist, blacklist_entry, upsert_row,
}
use blacklist.IpManagement.Locality.{count_listed, entry_of}

unfoldable pub has_entry : String → List WhitelistEntry → Bool
has_entry ip [] = false
has_entry ip (q ∷ rows) = str_eq q.ip_address ip || has_entry ip rows

upsert_row-count :
    (w : WhitelistCreate) (new : WhitelistEntry) (ip : String) (rows : List WhitelistEntry)
    → has_entry w.ip_address rows ≡ true
    → count_listed ip
        (upsert_row (λ q. str_eq q.ip_address w.ip_address) (merge_whitelist w) new rows).1
      ≡ count_listed ip rows
unfolding has_entry upsert_row merge_whitelist count_whitelist_by_ip
upsert_row-count w new ip [] h = cc
upsert_row-count w new ip (q ∷ rows) h = elim (Bool-cases (str_eq q.ip_address w.ip_address)) [
  | inl e ↦ rw e refl
  | inr e ↦ rw e (
      ap (λ n. if str_eq q.ip_address ip && q.is_active then suc n else n)
        (upsert_row-count w new ip rows (ground arith)))
]

-- A post of an address that the whitelist has a row for, active or not, leaves it to the decision
-- service as it was: an address that was taken off by `is_active = false` stays off.
pub create_whitelist_inactive :
    (w : WhitelistCreate) (t : Lists) (ip : String)
    → has_entry w.ip_address t.whitelist ≡ true
    → is_listed (decided_on (create_whitelist false w t).1) ip ≡ is_listed (decided_on t) ip
unfolding create_whitelist decided_on
create_whitelist_inactive w t ip h =
    ap (λ n. ltb 0 n) (upsert_row-count w (whitelist_entry t.next_whitelist_id w) ip t.whitelist h)

module _ (b : BlacklistCreate) (new : BlacklistEntry) (at : new.ip_address ≡ b.ip_address)
    (active : new.is_active ≡ true) (on : b.is_active ≡ true) where
  found_row :
      (q : BlacklistEntry) (rows : List BlacklistEntry)
      → q.ip_address ≡ b.ip_address
      → q.is_active ≡ true
      → (respond (entry_of b.ip_address (q ∷ rows))).blocked ≡ true
  unfolding respond get_blacklist_entry
  found_row q rows e up = ground (arith, eq_iff q.ip_address b.ip_address)

  next_row :
      (q : BlacklistEntry) (rows : List BlacklistEntry)
      → (respond (entry_of b.ip_address rows)).blocked ≡ true
      → (respond (entry_of b.ip_address (q ∷ rows))).blocked ≡ true
  unfolding respond get_blacklist_entry
  next_row q rows h = elim (Bool-cases (str_eq q.ip_address b.ip_address && q.is_active)) [
    | inl e ↦ rw e refl
    | inr e ↦ rw e h
  ]

  upsert_row-blocked :
      (rows : List BlacklistEntry)
      → (respond (
          entry_of b.ip_address
            (upsert_row
              (λ q. str_eq q.ip_address b.ip_address && str_eq q.source b.source)
              (merge_blacklist b)
              new
              rows).1)).blocked
        ≡ true
  unfolding upsert_row merge_blacklist
  upsert_row-blocked [] = found_row new [] at active
  upsert_row-blocked (q ∷ rows) =
      elim (Bool-cases (str_eq q.ip_address b.ip_address && str_eq q.source b.source)) [
        | inl e ↦ rw e (
            found_row (merge_blacklist b q) rows
              ((eq_iff q.ip_address b.ip_address).0 (ground arith)) on)
        | inr e ↦ rw e (next_row q _ (upsert_row-blocked rows))
      ]

-- An active entry that was posted blocks its address, whatever rows there were.
pub create_blacklist-blocked :
    (b : BlacklistCreate) (t : Lists)
    → b.is_active ≡ true
    → (respond (
        get_blacklist_entry b.ip_address
          (decided_on (create_blacklist false b t).1).blacklist)).blocked
      ≡ true
unfolding create_blacklist decided_on blacklist_entry
create_blacklist-blocked b t on =
    upsert_row-blocked b (blacklist_entry t.next_blacklist_id b) refl on on t.blacklist
