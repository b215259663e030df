-- ===== src/Storage/Selection.antt =====
-- What reaches the table: the filter, the removal of duplicates and the batches.
use blacklist.Prelude.{
  ℕ, zero, suc, ◌+◌, ◌≤◌, ◌<◌, ◌≡◌, ◌≢◌, inl, inr, refl, ◌∙◌, ap, true, false, Bool-cases, Option,
  List, [], ◌∷◌, ◌++◌, leb, String, eq_iff, length, take, drop, map, concat, take-drop,
  length-take-le, length-drop, arith,
}
use blacklist.Prelude.Python.{empty_text}
use blacklist.Storage.{
  Item, Address, Check, valid, excluded, expired, check_item, count_item, Filtered, filter_loop,
  filter_invalid_ips, member, dedup_loop, memory_optimized_dedup, get_batches, batches_from,
}

module _ (strptime : String → Option ℕ) (ip_address : String → Option Address) (today : ℕ) where
  -- Items in the order of the input, each of which the filter's tests accept.
  pub data IsValidPart : List Item → List Item → Type 0 where
    no_items : IsValidPart [] []
    kept :
        {item : Item} {items valid_ips : List Item}
        → check_item strptime ip_address today item ≡ valid
        → IsValidPart items valid_ips
        → IsValidPart (item ∷ items) (item ∷ valid_ips)
    left_out :
        {item : Item} {items valid_ips : List Item}
        → check_item strptime ip_address today item ≢ valid
        → IsValidPart items valid_ips
        → IsValidPart (item ∷ items) valid_ips

  with_item :
      (item : Item) (items : List Item) (f : Filtered)
      → IsValidPart items f.valid_ips
      → length f.valid_ips + (f.excluded_count + f.expired_count) ≡ length items
      → (c : Check) → check_item strptime ip_address today item ≡ c
      → IsValidPart (item ∷ items) (count_item c item f).valid_ips
        × (length (count_item c item f).valid_ips
              + ((count_item c item f).excluded_count + (count_item c item f).expired_count)
            ≡ length (item ∷ items))
  with_item item items f part counted valid e = (kept e part, omega arith)
  with_item item items f part counted excluded e = (left_out (ground arith) part, omega arith)
  with_item item items f part counted expired e = (left_out (ground arith) part, omega arith)

  -- The filter keeps exactly the items that pass its tests, in order, and counts all the others.
  pub filter_invalid_ips-IsValidPart :
      (items : List Item)
      → IsValidPart items (filter_invalid_ips strptime ip_address today items).0
        × (length (filter_invalid_ips strptime ip_address today items).0
              + (filter_invalid_ips strptime ip_address today items).1
            ≡ length items)
  unfolding filter_invalid_ips filter_loop
  filter_invalid_ips-IsValidPart [] = (no_items, omega arith)
  filter_invalid_ips-IsValidPart (item ∷ items) =
      let (part, counted) = filter_invalid_ips-IsValidPart items in
      with_item item items (filter_loop strptime ip_address today items) part counted
        (check_item strptime ip_address today item) refl

-- Addresses that are not empty, not in `seen`, and each there once.
pub data AreDistinct : List String → List Item → Type 0 where
  no_more : {seen : List String} → AreDistinct seen []
  one_more :
      {seen : List String} {item : Item} {items : List Item}
      → empty_text item.ip_address ≡ false
      → member item.ip_address seen ≡ false
      → AreDistinct (item.ip_address ∷ seen) items
      → AreDistinct seen (item ∷ items)

-- The addresses of the items.
abbrev pub addresses : List Item → List String
addresses = map (λ (i : Item). i.ip_address)

module _ (cache_max_size : ℕ) where
  dedup_loop-AreDistinct :
      (seen : List String) (found : ℕ) (items : List Item)
      → AreDistinct seen (dedup_loop cache_max_size seen found items)
  unfolding dedup_loop
  dedup_loop-AreDistinct seen found [] = no_more
  dedup_loop-AreDistinct seen found (item ∷ items) =
      elim (Bool-cases (empty_text item.ip_address)) [
        | inl e ↦ rw e (dedup_loop-AreDistinct seen found items)
        | inr e ↦ elim (Bool-cases (member item.ip_address seen)) [
          | inl m ↦ rw (e, m) (dedup_loop-AreDistinct seen found items)
          | inr m ↦ elim (Bool-cases (leb cache_max_size (suc found))) [
            | inl f ↦ rw (e, m, f) (one_more e m no_more)
            | inr f ↦
                rw (e, m, f)
                  (one_more e m (dedup_loop-AreDistinct (item.ip_address ∷ seen) (suc found) items))
          ]
        ]
      ]

  -- With room for one more, an address is lost only if the limit is reached.
  dedup_loop-keeps :
      (seen : List String) (found : ℕ) (items : List Item) (s : String)
      → empty_text s ≡ false
      → member s (addresses items) ≡ true
      → member s seen ≡ false
      → found < cache_max_size
      → found + length (dedup_loop cache_max_size seen found items) < cache_max_size
      → member s (addresses (dedup_loop cache_max_size seen found items)) ≡ true
  unfolding dedup_loop member
  dedup_loop-keeps seen found [] s nonempty there new below room = ground arith
  dedup_loop-keeps seen found (item ∷ items) s nonempty there new below room = ground (
    arith,
    eq_iff item.ip_address s,
    dedup_loop-keeps seen found items s,
    dedup_loop-keeps (item.ip_address ∷ seen) (suc found) items s,
  )

  -- No address is stored twice or is empty, and while the result stays below the limit every
  -- address of the input is in it.
  pub memory_optimized_dedup-AreDistinct :
      (items : List Item)
      → AreDistinct [] (memory_optimized_dedup cache_max_size items)
        × ((s : String)
            → empty_text s ≡ false
            → member s (addresses items) ≡ true
            → length (memory_optimized_dedup cache_max_size items) < cache_max_size
            → member s (addresses (memory_optimized_dedup cache_max_size items)) ≡ true)
  unfolding memory_optimized_dedup member
  memory_optimized_dedup-AreDistinct items = (
    dedup_loop-AreDistinct [] 0 items,
    λ s nonempty there room.
        dedup_loop-keeps [] 0 items s nonempty there refl (omega arith) (omega arith),
  )

module _ {ℓ} {A : Type ℓ} where
  -- Batches of a size, none of them empty.
  pub data AreBatches (batch_size : ℕ) : List (List A) → Type ℓ where
    no_batches : AreBatches batch_size []
    with_batch :
        {batch : List A} {batches : List (List A)}
        → 0 < length batch
        → length batch ≤ batch_size
        → AreBatches batch_size batches
        → AreBatches batch_size (batch ∷ batches)

  batches_from-concat :
      (fuel batch_size : ℕ) (xs : List A)
      → 0 < batch_size
      → length xs ≤ fuel
      → concat (batches_from fuel batch_size xs) ≡ xs
  unfolding batches_from
  batches_from-concat zero size [] positive enough = refl
  batches_from-concat zero size (x ∷ xs) positive enough = ground arith
  batches_from-concat (suc fuel) size [] positive enough = refl
  batches_from-concat (suc fuel) size (x ∷ xs) positive enough =
      ap (λ ys. take size (x ∷ xs) ++ ys)
        (batches_from-concat fuel size (drop size (x ∷ xs)) positive
          (ground (arith, length-drop size (x ∷ xs))))
      ∙ take-drop size (x ∷ xs)

  batches_from-AreBatches :
      (fuel batch_size : ℕ) (xs : List A)
      → 0 < batch_size
      → AreBatches batch_size (batches_from fuel batch_size xs)
  unfolding batches_from
  batches_from-AreBatches zero size xs positive = no_batches
  batches_from-AreBatches (suc fuel) size [] positive = no_batches
  batches_from-AreBatches (suc fuel) (suc size) (x ∷ xs) positive =
      with_batch (omega arith) (length-take-le (suc size) (x ∷ xs))
        (batches_from-AreBatches fuel (suc size) (drop (suc size) (x ∷ xs)) positive)
  batches_from-AreBatches (suc fuel) zero (x ∷ xs) positive = ground arith

  -- The batches are the list, cut into parts of at most the batch size, and none of them is empty.
  pub get_batches-AreBatches :
      (batch_size : ℕ) (xs : List A)
      → 0 < batch_size
      → (concat (get_batches batch_size xs) ≡ xs)
        × AreBatches batch_size (get_batches batch_size xs)
  unfolding get_batches
  get_batches-AreBatches size xs positive = (
    batches_from-concat (length xs) size xs positive (omega arith),
    batches_from-AreBatches (length xs) size xs positive,
  )
