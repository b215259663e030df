-- ===== src/Storage/Save.antt =====
-- The whole of `save_blacklist_ips`: the table after it, and its three counts.
use blacklist.Prelude.{
  take, ◌⊎◌, inl, inr, zero, none, some, ℕ, suc, ◌+◌, ◌<◌, ◌≡◌, refl, ap, ◌||◌, Option, List, [],
  ◌∷◌, String, length, concat, arith,
}
use blacklist.Storage.{
  Item, Table, Address, get_batches, batches_from, filter_invalid_ips, memory_optimized_dedup,
}
use blacklist.Storage.Selection.{
  get_batches-AreBatches, AreDistinct, memory_optimized_dedup-AreDistinct,
}
use blacklist.Storage.Insert.{insert_items, save_unique, save_blacklist_ips}
use blacklist.Storage.Upsert.{
  AreSound, has_key, has_item, insert_items-AreSound, insert_items-has_key, insert_batches-concat,
}
use blacklist.Storage.Counting.{counts_add_up}

module _ (strptime : String → Option ℕ) (ip_address : String → Option Address)
    (lower : String → String) (today cache_max_size chunk_size : ℕ)
    (positive : 0 < chunk_size) where
  -- The items that are stored.
  abbrev pub stored_items : List Item → List Item
  stored_items ip_data =
      memory_optimized_dedup cache_max_size (filter_invalid_ips strptime ip_address today ip_data).0

  save_unique_lem :
      (items : List Item) (t : Table)
      → ((save_unique strptime ip_address lower today cache_max_size chunk_size none items t).1
          ≡ insert_items strptime lower today items t)
        × ((save_unique strptime ip_address lower today cache_max_size chunk_size none items
              t).0.total
            ≡ length items)
  unfolding save_unique insert_items
  save_unique_lem [] t = (refl, omega arith)
  save_unique_lem (item ∷ items) t =
      rw
        (
          insert_batches-concat strptime lower today (get_batches chunk_size (item ∷ items)) 0 t,
          (get_batches-AreBatches chunk_size (item ∷ items) positive).0,
        )
        (refl, omega arith)

  save_unique-rollback :
      (k : ℕ) (items : List Item) (t : Table)
      → AreDistinct [] items
      → let saved =
          save_unique strptime ip_address lower today cache_max_size chunk_size (some k) items t in
        (saved.1 ≡ t)
        × (saved.0.new_count + saved.0.updated_count ≡ length items)
        × (saved.0.total ≡ length (concat (take k (get_batches chunk_size items))))
  unfolding save_unique get_batches batches_from
  save_unique-rollback zero [] t distinct = (refl, omega arith, omega arith)
  save_unique-rollback (suc k) [] t distinct = (refl, omega arith, omega arith)
  save_unique-rollback k (item ∷ items) t distinct =
      let batches = take k (get_batches chunk_size (item ∷ items)) in
      (
        refl,
        counts_add_up t.rows (item ∷ items) distinct,
        omega (
          arith,
          ap (λ (p : ℕ × Table). p.0) (insert_batches-concat strptime lower today batches 0 t),
        ),
      )

  save_blacklist_ips_lem :
      (ip_data : List Item) (t : Table)
      → ((save_blacklist_ips strptime ip_address lower today cache_max_size chunk_size none ip_data
            t).1
          ≡ insert_items strptime lower today (stored_items ip_data) t)
        × ((save_blacklist_ips strptime ip_address lower today cache_max_size chunk_size none
              ip_data t).0.total
            ≡ length (stored_items ip_data))
  unfolding save_blacklist_ips
  save_blacklist_ips_lem ip_data t = save_unique_lem (stored_items ip_data) t

  -- A save whose database raises after some of the batches stores nothing, but its answer still
  -- counts every item as new or updated, and the batches before the error as saved.
  pub save_blacklist_ips-rollback :
      (k : ℕ) (ip_data : List Item) (t : Table)
      → let saved =
          save_blacklist_ips strptime ip_address lower today cache_max_size chunk_size
            (some k)
            ip_data
            t in
        (saved.1 ≡ t)
        × (saved.0.new_count + saved.0.updated_count ≡ length (stored_items ip_data))
        × (saved.0.total ≡ length (concat (take k (get_batches chunk_size (stored_items ip_data)))))
  unfolding save_blacklist_ips
  save_blacklist_ips-rollback k ip_data t =
      save_unique-rollback k (stored_items ip_data) t
        (memory_optimized_dedup-AreDistinct cache_max_size
          (filter_invalid_ips strptime ip_address today ip_data).0).0

  save_blacklist_ips-table :
      (breaks : Option ℕ) (ip_data : List Item) (t : Table)
      → ((save_blacklist_ips strptime ip_address lower today cache_max_size chunk_size breaks
            ip_data t).1
          ≡ insert_items strptime lower today (stored_items ip_data) t)
        ⊎ ((save_blacklist_ips strptime ip_address lower today cache_max_size chunk_size breaks
              ip_data t).1
            ≡ t)
  save_blacklist_ips-table none ip_data t = inl (save_blacklist_ips_lem ip_data t).0
  save_blacklist_ips-table (some k) ip_data t = inr (save_blacklist_ips-rollback k ip_data t).0

  -- A save keeps the table sound, whether or not the database raises: each address and source
  -- once, ids below the next one, and no row active past its removal date.
  pub save_blacklist_ips-AreSound :
      (breaks : Option ℕ) (ip_data : List Item) (t : Table)
      → AreSound today t.next_id t.rows
      → AreSound today
          (save_blacklist_ips strptime ip_address lower today cache_max_size chunk_size breaks
            ip_data t).1.next_id
          (save_blacklist_ips strptime ip_address lower today cache_max_size chunk_size breaks
            ip_data t).1.rows
  save_blacklist_ips-AreSound breaks ip_data t sound =
      elim (save_blacklist_ips-table breaks ip_data t) [
        | inl stored ↦
            rw stored (insert_items-AreSound strptime lower today (stored_items ip_data) t sound)
        | inr kept ↦ rw kept sound
      ]

  -- A save without an error of the database adds the address and source of each item that the
  -- filter and the removal of duplicates leave, in whatever batches, and no other key, and it
  -- removes none.
  pub save_blacklist_ips-has_key :
      (ip_data : List Item) (t : Table) (a s : String)
      → has_key
          (save_blacklist_ips strptime ip_address lower today cache_max_size chunk_size none ip_data
            t).1.rows
          a
          s
        ≡ (has_key t.rows a s || has_item (stored_items ip_data) a s)
  save_blacklist_ips-has_key ip_data t a s =
      rw (save_blacklist_ips_lem ip_data t).0
        (insert_items-has_key strptime lower today (stored_items ip_data) t a s)

  save_unique-counts :
      (items : List Item) (t : Table)
      → AreDistinct [] items
      → (save_unique strptime ip_address lower today cache_max_size chunk_size none items
            t).0.new_count
          + (save_unique strptime ip_address lower today cache_max_size chunk_size none items
              t).0.updated_count
        ≡ (save_unique strptime ip_address lower today cache_max_size chunk_size none items
            t).0.total
  unfolding save_unique
  save_unique-counts [] t distinct = omega arith
  save_unique-counts (item ∷ items) t distinct = omega (
    arith,
    counts_add_up t.rows (item ∷ items) distinct,
    ap (λ (p : ℕ × Table). p.0)
        (insert_batches-concat strptime lower today (get_batches chunk_size (item ∷ items)) 0 t),
    ap (λ (xs : List Item). length xs)
        (get_batches-AreBatches chunk_size (item ∷ items) positive).0,
  )

  -- Without an error of the database the three counts that a save returns agree: every stored item
  -- counts as new or as updated.
  pub save_blacklist_ips-counts :
      (ip_data : List Item) (t : Table)
      → (save_blacklist_ips strptime ip_address lower today cache_max_size chunk_size none ip_data
            t).0.new_count
          + (save_blacklist_ips strptime ip_address lower today cache_max_size chunk_size none
              ip_data t).0.updated_count
        ≡ (save_blacklist_ips strptime ip_address lower today cache_max_size chunk_size none ip_data
            t).0.total
  unfolding save_blacklist_ips
  save_blacklist_ips-counts ip_data t =
      save_unique-counts (stored_items ip_data) t
        (memory_optimized_dedup-AreDistinct cache_max_size
          (filter_invalid_ips strptime ip_address today ip_data).0).0
