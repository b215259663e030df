-- ===== src/IpManagement/Locality.antt =====
-- A write to one address leaves what the tables say of every other: on any fold over the rows that
-- skips the rows of other addresses, which the two queries of the decision service are.
use blacklist.Prelude.{
  ℕ, suc, ◌≡◌, refl, sym, ◌∙◌, ap, subst, Bool, true, false, ◌&&◌, Option, none, some, String, List,
  [], ◌∷◌, str_eq, if◌then◌else◌, map,
}
use blacklist.Decision.{BlacklistRow, count_whitelist_by_ip, get_blacklist_entry}
use blacklist.IpManagement.Repository.{
  WhitelistEntry, BlacklistEntry, whitelist_row, blacklist_row, upsert_row, update_row, delete_row,
}

-- The row that comes back, where one does, is of another address.
unfoldable pub Elsewhere : {A : Type 0} → (A → String) → String → Option A → Type 0
Elsewhere address other none = Unit {0}
Elsewhere address other (some r) = str_eq (address r) other ≡ false

choose_address :
    {A : Type 0} (address : A → String) (a : String) (b : Bool) (p p' : A × List A)
    → (b ≡ true → address p.0 ≡ a)
    → (b ≡ false → address p'.0 ≡ a)
    → address (if b then p else p').0 ≡ a
choose_address address a true p p' h k = h refl
choose_address address a false p p' h k = k refl

pub upsert_row-address :
    {A : Type 0} (address : A → String) (a : String) (where_ : A → Bool) (merge : A → A) (new : A)
    (rows : List A)
    → ((q : A) → where_ q ≡ true → address q ≡ a)
    → ((q : A) → address (merge q) ≡ address q)
    → address new ≡ a
    → address (upsert_row where_ merge new rows).0 ≡ a
unfolding upsert_row
upsert_row-address address a where_ merge new [] found keeps at = at
upsert_row-address address a where_ merge new (q ∷ rows) found keeps at =
    choose_address address a (where_ q) _ _ (λ e. keeps q ∙ found q e)
      (λ _. upsert_row-address address a where_ merge new rows found keeps at)

module _ {A B : Type 0} (address : A → String) (query : List A → B) (step : A → B → B)
    (other : String) (fold : (q : A) (rows : List A) → query (q ∷ rows) ≡ step q (query rows))
    (skips : (q : A) (b : B) → str_eq (address q) other ≡ false → step q b ≡ b) where
  skip : (q : A) (rows : List A) → str_eq (address q) other ≡ false → query (q ∷ rows) ≡ query rows
  skip q rows h = fold q rows ∙ skips q (query rows) h

  same_head : (q : A) (xs ys : List A) → query xs ≡ query ys → query (q ∷ xs) ≡ query (q ∷ ys)
  same_head q xs ys e = fold q xs ∙ ap (step q) e ∙ sym (fold q ys)

  choose :
      (b : Bool) (p p' : A × List A) (rows : List A)
      → (b ≡ true → query p.1 ≡ query rows)
      → (b ≡ false → query p'.1 ≡ query rows)
      → query (if b then p else p').1 ≡ query rows
  choose true p p' rows h k = h refl
  choose false p p' rows h k = k refl

  pub upsert_row-other :
      (where_ : A → Bool) (merge : A → A) (new : A) (rows : List A)
      → ((q : A) → where_ q ≡ true → str_eq (address q) other ≡ false)
      → ((q : A) → address (merge q) ≡ address q)
      → str_eq (address new) other ≡ false
      → query (upsert_row where_ merge new rows).1 ≡ query rows
  unfolding upsert_row
  upsert_row-other where_ merge new [] elsewhere keeps new_elsewhere = skip new [] new_elsewhere
  upsert_row-other where_ merge new (q ∷ rows) elsewhere keeps new_elsewhere =
      choose (where_ q) _ _ (q ∷ rows)
        (λ found.
          skip (merge q) rows
            (subst (λ s. str_eq s other ≡ false) (sym (keeps q)) (elsewhere q found))
          ∙ sym (skip q rows (elsewhere q found)))
        (λ _.
          same_head q _ rows (upsert_row-other where_ merge new rows elsewhere keeps new_elsewhere))

  choose_row :
      (b : Bool) (p p' : Option A × List A) (rows : List A)
      → Elsewhere address other (if b then p else p').0
      → (Elsewhere address other p.0 → query p.1 ≡ query rows)
      → (Elsewhere address other p'.0 → query p'.1 ≡ query rows)
      → query (if b then p else p').1 ≡ query rows
  choose_row true p p' rows e h k = h e
  choose_row false p p' rows e h k = k e

  pub update_row-other :
      (where_ : A → Bool) (set : A → A) (rows : List A)
      → ((q : A) → address (set q) ≡ address q)
      → Elsewhere address other (update_row where_ set rows).0
      → query (update_row where_ set rows).1 ≡ query rows
  unfolding update_row Elsewhere
  update_row-other where_ set [] keeps e = refl
  update_row-other where_ set (q ∷ rows) keeps e =
      choose_row (where_ q) _ _ (q ∷ rows) e
        (λ away.
          skip (set q) rows away
          ∙ sym (skip q rows (subst (λ s. str_eq s other ≡ false) (keeps q) away)))
        (λ away. same_head q _ rows (update_row-other where_ set rows keeps away))

  pub delete_row-other :
      (where_ : A → Bool) (rows : List A)
      → Elsewhere address other (delete_row where_ rows).0
      → query (delete_row where_ rows).1 ≡ query rows
  unfolding delete_row Elsewhere
  delete_row-other where_ [] e = refl
  delete_row-other where_ (q ∷ rows) e =
      choose_row (where_ q) _ _ (q ∷ rows) e (λ away. sym (skip q rows away))
        (λ away. same_head q _ rows (delete_row-other where_ rows away))

-- The two queries, on the rows of the tables.
abbrev pub count_listed : String → List WhitelistEntry → ℕ
count_listed ip rows = count_whitelist_by_ip ip (map whitelist_row rows)

abbrev pub count_step : String → WhitelistEntry → ℕ → ℕ
count_step ip q n = if str_eq q.ip_address ip && q.is_active then suc n else n

pub count_listed-fold :
    (ip : String) (q : WhitelistEntry) (rows : List WhitelistEntry)
    → count_listed ip (q ∷ rows) ≡ count_step ip q (count_listed ip rows)
unfolding count_whitelist_by_ip
count_listed-fold ip q rows = refl

pub count_step-skips :
    (ip : String) (q : WhitelistEntry) (n : ℕ)
    → str_eq q.ip_address ip ≡ false
    → count_step ip q n ≡ n
count_step-skips ip q n h = rw h refl

abbrev pub entry_of : String → List BlacklistEntry → Option BlacklistRow
entry_of ip rows = get_blacklist_entry ip (map blacklist_row rows)

abbrev pub entry_step : String → BlacklistEntry → Option BlacklistRow → Option BlacklistRow
entry_step ip q r = if str_eq q.ip_address ip && q.is_active then some (blacklist_row q) else r

pub entry_of-fold :
    (ip : String) (q : BlacklistEntry) (rows : List BlacklistEntry)
    → entry_of ip (q ∷ rows) ≡ entry_step ip q (entry_of ip rows)
unfolding get_blacklist_entry
entry_of-fold ip q rows = refl

pub entry_step-skips :
    (ip : String) (q : BlacklistEntry) (r : Option BlacklistRow)
    → str_eq q.ip_address ip ≡ false
    → entry_step ip q r ≡ r
entry_step-skips ip q r h = rw h refl
