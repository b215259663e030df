-- ===== src/IpManagement/Writes.antt =====
-- Each write of the repository changes what the tables say of one address only: that of the row
-- which it returns.
use blacklist.Prelude.{
  ℕ, ◌≡◌, refl, sym, subst, Bool, true, false, ◌&&◌, String, List, str_eq, eq_iff, arith, ◌==◌,
}
use blacklist.IpManagement.{Change, WhitelistCreate, BlacklistCreate}
use blacklist.IpManagement.Repository.{
  WhitelistEntry, BlacklistEntry, Lists, Reply, raises, returns, create_whitelist, create_blacklist,
  update_whitelist, update_blacklist, delete_whitelist, delete_blacklist, merge_whitelist,
  whitelist_entry, merge_blacklist, blacklist_entry, set_columns, set_whitelist_column,
  set_blacklist_column,
}
use blacklist.IpManagement.Routes.{whitelist_address, blacklist_address}
use blacklist.IpManagement.Policy.{keeps_key, set_blacklist_columns-key, set_whitelist_columns-key}
use blacklist.IpManagement.Locality.{
  Elsewhere, upsert_row-address, upsert_row-other, update_row-other, delete_row-other, count_listed,
  count_step, count_listed-fold, count_step-skips, entry_of, entry_step, entry_of-fold,
  entry_step-skips,
}

-- Two states of the tables say the same of an address.
unfoldable pub SameFor : String → Lists → Lists → Type 0
SameFor ip t t' =
    (count_listed ip t'.whitelist ≡ count_listed ip t.whitelist)
    × (entry_of ip t'.blacklist ≡ entry_of ip t.blacklist)

-- The row that a call returns, if any, is of another address.
unfoldable pub AwayFrom : {A : Type 0} → (A → String) → String → Reply A → Type 0
AwayFrom address ip raises = Unit {0}
AwayFrom address ip (returns r) = Elsewhere address ip r

same : (ip : String) (t : Lists) → SameFor ip t t
unfolding SameFor
same ip t = (refl, refl)

pub create_whitelist-SameFor :
    (breaks : Bool) (w : WhitelistCreate) (t : Lists) (ip : String)
    → AwayFrom whitelist_address ip (create_whitelist breaks w t).0
    → SameFor ip t (create_whitelist breaks w t).1
unfolding create_whitelist SameFor AwayFrom Elsewhere merge_whitelist whitelist_entry
create_whitelist-SameFor true w t ip away = (refl, refl)
create_whitelist-SameFor false w t ip away =
    let found : (q : WhitelistEntry)
        → str_eq q.ip_address w.ip_address ≡ true
        → q.ip_address ≡ w.ip_address =
      λ q e. (eq_iff q.ip_address w.ip_address).0 e in
    let elsewhere : str_eq w.ip_address ip ≡ false =
      subst (λ s. str_eq s ip ≡ false)
        (upsert_row-address whitelist_address w.ip_address (λ q. str_eq q.ip_address w.ip_address)
          (merge_whitelist w) (whitelist_entry t.next_whitelist_id w) t.whitelist found (λ q. refl)
          refl)
        away in
    (
      upsert_row-other whitelist_address (count_listed ip) (count_step ip) ip (count_listed-fold ip)
          (count_step-skips ip) (λ q. str_eq q.ip_address w.ip_address) (merge_whitelist w)
          (whitelist_entry t.next_whitelist_id w) t.whitelist
          (λ q e. subst (λ s. str_eq s ip ≡ false) (sym (found q e)) elsewhere) (λ q. refl)
          elsewhere,
      refl,
    )

pub create_blacklist-SameFor :
    (breaks : Bool) (b : BlacklistCreate) (t : Lists) (ip : String)
    → AwayFrom blacklist_address ip (create_blacklist breaks b t).0
    → SameFor ip t (create_blacklist breaks b t).1
unfolding create_blacklist SameFor AwayFrom Elsewhere merge_blacklist blacklist_entry
create_blacklist-SameFor true b t ip away = (refl, refl)
create_blacklist-SameFor false b t ip away =
    let found : (q : BlacklistEntry)
        → str_eq q.ip_address b.ip_address && str_eq q.source b.source ≡ true
        → q.ip_address ≡ b.ip_address =
      λ q e. (eq_iff q.ip_address b.ip_address).0 (ground arith) in
    let elsewhere : str_eq b.ip_address ip ≡ false =
      subst (λ s. str_eq s ip ≡ false)
        (upsert_row-address blacklist_address b.ip_address
          (λ q. str_eq q.ip_address b.ip_address && str_eq q.source b.source) (merge_blacklist b)
          (blacklist_entry t.next_blacklist_id b) t.blacklist found (λ q. refl) refl)
        away in
    (
      refl,
      upsert_row-other blacklist_address (entry_of ip) (entry_step ip) ip (entry_of-fold ip)
          (entry_step-skips ip) (λ q. str_eq q.ip_address b.ip_address && str_eq q.source b.source)
          (merge_blacklist b) (blacklist_entry t.next_blacklist_id b) t.blacklist
          (λ q e. subst (λ s. str_eq s ip ≡ false) (sym (found q e)) elsewhere) (λ q. refl)
          elsewhere,
    )

pub update_whitelist-SameFor :
    (breaks : Bool) (id : ℕ) (changes : List Change) (t : Lists) (ip : String)
    → keeps_key changes ≡ true
    → AwayFrom whitelist_address ip (update_whitelist breaks id changes t).0
    → SameFor ip t (update_whitelist breaks id changes t).1
unfolding update_whitelist SameFor AwayFrom
update_whitelist-SameFor true id changes t ip kept away = (refl, refl)
update_whitelist-SameFor false id changes t ip kept away = (
  update_row-other whitelist_address (count_listed ip) (count_step ip) ip (count_listed-fold ip)
      (count_step-skips ip) (λ q. q.id == id) (set_columns set_whitelist_column changes) t.whitelist
      (λ q. set_whitelist_columns-key changes q kept) away,
  refl,
)

pub update_blacklist-SameFor :
    (breaks : Bool) (id : ℕ) (changes : List Change) (t : Lists) (ip : String)
    → keeps_key changes ≡ true
    → AwayFrom blacklist_address ip (update_blacklist breaks id changes t).0
    → SameFor ip t (update_blacklist breaks id changes t).1
unfolding update_blacklist SameFor AwayFrom
update_blacklist-SameFor true id changes t ip kept away = (refl, refl)
update_blacklist-SameFor false id changes t ip kept away = (
  refl,
  update_row-other blacklist_address (entry_of ip) (entry_step ip) ip (entry_of-fold ip)
      (entry_step-skips ip) (λ q. q.id == id) (set_columns set_blacklist_column changes) t.blacklist
      (λ q. (set_blacklist_columns-key changes q kept).0) away,
)

pub delete_whitelist-SameFor :
    (breaks : Bool) (id : ℕ) (t : Lists) (ip : String)
    → AwayFrom whitelist_address ip (delete_whitelist breaks id t).0
    → SameFor ip t (delete_whitelist breaks id t).1
unfolding delete_whitelist SameFor AwayFrom
delete_whitelist-SameFor true id t ip away = (refl, refl)
delete_whitelist-SameFor false id t ip away = (
  delete_row-other whitelist_address (count_listed ip) (count_step ip) ip (count_listed-fold ip)
      (count_step-skips ip) (λ q. q.id == id) t.whitelist away,
  refl,
)

pub delete_blacklist-SameFor :
    (breaks : Bool) (id : ℕ) (t : Lists) (ip : String)
    → AwayFrom blacklist_address ip (delete_blacklist breaks id t).0
    → SameFor ip t (delete_blacklist breaks id t).1
unfolding delete_blacklist SameFor AwayFrom
delete_blacklist-SameFor true id t ip away = (refl, refl)
delete_blacklist-SameFor false id t ip away = (
  refl,
  delete_row-other blacklist_address (entry_of ip) (entry_step ip) ip (entry_of-fold ip)
      (entry_step-skips ip) (λ q. q.id == id) t.blacklist away,
)
