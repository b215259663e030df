-- ===== src/Storage/Upsert.antt =====
-- What the upserts keep true of the table, and the rows it has after a save.
use blacklist.Prelude.{
  ℕ, suc, ◌+◌, ◌≤◌, ◌<◌, ◌≡◌, inl, inr, refl, sym, ◌∙◌, ap, Bool, false, Bool-cases, ◌&&◌, ◌||◌,
  Option, List, [], ◌∷◌, ◌++◌, String, str_eq, eq_iff, length, length-append, concat, arith,
}
use blacklist.Storage.{Item, Row, Table, get, is_past}
use blacklist.Storage.Insert.{
  same_key, merge, upsert, item_row, insert_item, insert_items, fallback_batch_insert,
  optimized_batch_insert, insert_batches,
}

abbrev pub has_key : List Row → String → String → Bool
has_key [] a s = false
has_key (q ∷ rows) a s = (str_eq q.ip_address a && str_eq q.source s) || has_key rows a s

-- Some item has the address and the source, which is COLLECTOR where none is given.
abbrev pub has_item : List Item → String → String → Bool
has_item [] a s = false
has_item (item ∷ items) a s =
    (str_eq item.ip_address a && str_eq (get item.source "COLLECTOR") s) || has_item items a s

-- Each key (address and source) once, each id below the next one, and no row active past its
-- removal date.
pub data AreSound (today next_id : ℕ) : List Row → Type 0 where
  no_rows : AreSound today next_id []
  with_row :
      {r : Row} {rows : List Row}
      → has_key rows r.ip_address r.source ≡ false
      → r.id < next_id
      → r.is_active && is_past today r.removal_date ≡ false
      → AreSound today next_id rows
      → AreSound today next_id (r ∷ rows)

has_key-upsert :
    (today : ℕ) (r : Row) (rows : List Row) (a s : String)
    → has_key (upsert today r rows) a s
      ≡ (has_key rows a s || (str_eq r.ip_address a && str_eq r.source s))
unfolding upsert merge
has_key-upsert today r [] a s = ground arith
has_key-upsert today r (q ∷ rows) a s = ground (
  arith,
  eq_iff q.ip_address r.ip_address,
  eq_iff q.source r.source,
  has_key-upsert today r rows a s,
)

merge-active :
    (today : ℕ) (q r : Row)
    → (merge today q r).is_active && is_past today (merge today q r).removal_date ≡ false
unfolding merge
merge-active today q r = ground arith

-- The merged row stands for the old one in its list.
merge-with_row :
    (today next_id : ℕ) (q r : Row) (rows : List Row)
    → has_key rows q.ip_address q.source ≡ false
    → q.id < next_id
    → AreSound today next_id rows
    → AreSound today next_id (merge today q r ∷ rows)
unfolding merge
merge-with_row today next_id q r rows key below sound =
    with_row key below (merge-active today q r) sound

weaken : (today n m : ℕ) (rows : List Row) → n ≤ m → AreSound today n rows → AreSound today m rows
weaken today n m [] h no_rows = no_rows
weaken today n m (r ∷ rows) h (with_row key below active sound) =
    with_row key (omega arith) active (weaken today n m rows h sound)

upsert-AreSound :
    (today next_id : ℕ) (r : Row) (rows : List Row)
    → r.id < next_id
    → r.is_active && is_past today r.removal_date ≡ false
    → AreSound today next_id rows
    → AreSound today next_id (upsert today r rows)
unfolding upsert
upsert-AreSound today next_id r [] below active no_rows = with_row refl below active no_rows
upsert-AreSound today next_id r (q ∷ rows) below active (with_row key below' active' sound) =
    elim (Bool-cases (same_key q r)) [
      | inl e ↦ rw e (merge-with_row today next_id q r rows key below' sound)
      | inr e ↦ rw e (
          with_row
            (ground (
              arith,
              has_key-upsert today r rows q.ip_address q.source,
              eq_iff q.ip_address r.ip_address,
              eq_iff q.source r.source,
              eq_iff r.ip_address q.ip_address,
              eq_iff r.source q.source,
            ))
            below' active' (upsert-AreSound today next_id r rows below active sound))
    ]

module _ (strptime : String → Option ℕ) (lower : String → String) (today : ℕ) where
  item_row-active :
      (id : ℕ) (item : Item)
      → (item_row strptime lower today id item).is_active
          && is_past today (item_row strptime lower today id item).removal_date
        ≡ false
  unfolding item_row
  item_row-active id item = ground arith

  item_row-id : (id : ℕ) (item : Item) → (item_row strptime lower today id item).id < suc id
  unfolding item_row
  item_row-id id item = omega arith

  item_row-key :
      (id : ℕ) (item : Item)
      → ((item_row strptime lower today id item).ip_address ≡ item.ip_address)
        × ((item_row strptime lower today id item).source ≡ get item.source "COLLECTOR")
  unfolding item_row
  item_row-key id item = (refl, refl)

  pub insert_items-AreSound :
      (items : List Item) (t : Table)
      → AreSound today t.next_id t.rows
      → AreSound today
          (insert_items strptime lower today items t).next_id
          (insert_items strptime lower today items t).rows
  unfolding insert_items insert_item
  insert_items-AreSound [] t sound = sound
  insert_items-AreSound (item ∷ items) t sound =
      insert_items-AreSound items (insert_item strptime lower today item t) (
        upsert-AreSound today (suc t.next_id) (item_row strptime lower today t.next_id item) t.rows
          (item_row-id t.next_id item) (item_row-active t.next_id item)
          (weaken today t.next_id (suc t.next_id) t.rows (omega arith) sound))

  -- Batches make no difference: the table is the one that the items give in one go, and the count
  -- is theirs.
  insert_items-append :
      (xs ys : List Item) (t : Table)
      → insert_items strptime lower today (xs ++ ys) t
        ≡ insert_items strptime lower today ys (insert_items strptime lower today xs t)
  unfolding insert_items
  insert_items-append [] ys t = refl
  insert_items-append (x ∷ xs) ys t =
      insert_items-append xs ys (insert_item strptime lower today x t)

  optimized_batch_insert_lem :
      (batch : List Item) (t : Table)
      → optimized_batch_insert strptime lower today batch t
        ≡ (length batch, insert_items strptime lower today batch t)
  unfolding optimized_batch_insert fallback_batch_insert insert_items
  optimized_batch_insert_lem [] t = refl
  optimized_batch_insert_lem (item ∷ items) t = refl

  pub insert_batches-concat :
      (batches : List (List Item)) (n : ℕ) (t : Table)
      → insert_batches strptime lower today batches n t
        ≡ (n + length (concat batches), insert_items strptime lower today (concat batches) t)
  unfolding insert_batches insert_items
  insert_batches-concat [] n t = ap (λ m. (m, t)) (omega arith)
  insert_batches-concat (batch ∷ batches) n t =
      ap (λ (p : ℕ × Table). insert_batches strptime lower today batches (n + p.0) p.1)
        (optimized_batch_insert_lem batch t)
      ∙ insert_batches-concat batches (n + length batch) (insert_items strptime lower today batch t)
      ∙ both (omega (arith, length-append batch (concat batches)))
          (sym (insert_items-append batch (concat batches) t))
    where
      both : {m k : ℕ} {u v : Table} → m ≡ k → u ≡ v → ◌≡◌ {A = ℕ × Table} (m, u) (k, v)
      both e f = rw (e, f) refl

  -- The keys after the upserts: those from before, and the address and source of each item.
  pub insert_items-has_key :
      (items : List Item) (t : Table) (a s : String)
      → has_key (insert_items strptime lower today items t).rows a s
        ≡ (has_key t.rows a s || has_item items a s)
  unfolding insert_items insert_item
  insert_items-has_key [] t a s = ground arith
  insert_items-has_key (item ∷ items) t a s = ground (
    arith,
    insert_items-has_key items (insert_item strptime lower today item t) a s,
    has_key-upsert today (item_row strptime lower today t.next_id item) t.rows a s,
    item_row-key t.next_id item,
  )
