-- ===== src/Storage/Counting.antt =====
-- The counts of new and of known addresses that `save_blacklist_ips` returns.
use blacklist.Prelude.{
  ℕ, suc, ◌+◌, ◌≡◌, refl, sym, ◌∙◌, true, ◌&&◌, ◌||◌, List, [], ◌∷◌, ◌++◌, if◌then◌else◌, String,
  eq_iff, length, concat, arith,
}
use blacklist.Storage.{Item, Row, member, get_batches}
use blacklist.Storage.Selection.{get_batches-AreBatches, AreDistinct, no_more, one_more, addresses}
use blacklist.Storage.Insert.{
  has_address, add_existing, add_batches, batch_check_existing_ips, count_new,
}

-- The set of addresses, told apart by membership alone, and its size.
add_existing-append :
    (rows : List Row) (xs ys existing_ips : List String)
    → add_existing rows (xs ++ ys) existing_ips
      ≡ add_existing rows ys (add_existing rows xs existing_ips)
unfolding add_existing
add_existing-append rows [] ys existing_ips = refl
add_existing-append rows (x ∷ xs) ys existing_ips = ground (
  arith,
  add_existing-append rows xs ys existing_ips,
  add_existing-append rows xs ys (x ∷ existing_ips),
)

add_batches-concat :
    (rows : List Row) (batches : List (List String)) (existing_ips : List String)
    → add_batches rows batches existing_ips ≡ add_existing rows (concat batches) existing_ips
unfolding add_batches add_existing
add_batches-concat rows [] existing_ips = refl
add_batches-concat rows (batch ∷ batches) existing_ips =
    add_batches-concat rows batches (add_existing rows batch existing_ips)
    ∙ sym (add_existing-append rows batch (concat batches) existing_ips)

member-add_existing :
    (rows : List Row) (xs existing_ips : List String) (s : String)
    → member s (add_existing rows xs existing_ips)
      ≡ (member s existing_ips || (has_address rows s && member s xs))
unfolding add_existing member has_address
member-add_existing rows [] existing_ips s = ground arith
member-add_existing rows (x ∷ xs) existing_ips s = ground (
  arith,
  eq_iff x s,
  member-add_existing rows xs existing_ips s,
  member-add_existing rows xs (x ∷ existing_ips) s,
)

-- The addresses among `xs` that the table has, and that it has not.
count_present : List Row → List String → ℕ
count_present rows [] = 0
count_present rows (x ∷ xs) =
    let n = count_present rows xs in if has_address rows x then suc n else n

length-add_existing :
    (rows : List Row) (seen existing_ips : List String) (items : List Item)
    → AreDistinct seen items
    → ((s : String) → member s existing_ips ≡ true → member s seen ≡ true)
    → length (add_existing rows (addresses items) existing_ips)
      ≡ length existing_ips + count_present rows (addresses items)
unfolding add_existing count_present member
length-add_existing rows seen existing_ips [] no_more inside = omega arith
length-add_existing rows seen existing_ips (item ∷ items) (one_more nonempty new distinct) inside =
    let a = item.ip_address in
    ground (
      arith,
      inside a,
      length-add_existing rows (a ∷ seen) existing_ips items distinct
          (λ s m. ground (arith, inside s)),
      length-add_existing rows (a ∷ seen) (a ∷ existing_ips) items distinct
          (λ s m. ground (arith, inside s)),
    )

count_new-count_present :
    (rows : List Row) (existing_ips xs : List String)
    → ((s : String) → member s xs ≡ true → member s existing_ips ≡ has_address rows s)
    → count_new existing_ips xs + count_present rows xs ≡ length xs
unfolding count_new count_present member
count_new-count_present rows existing_ips [] same = omega arith
count_new-count_present rows existing_ips (x ∷ xs) same = ground (
  arith,
  eq_iff x x,
  same x,
  count_new-count_present rows existing_ips xs (λ s m. same s (ground arith)),
)

length-addresses : (items : List Item) → length (addresses items) ≡ length items
length-addresses [] = omega arith
length-addresses (item ∷ items) = omega (arith, length-addresses items)

-- With addresses that differ, the new ones and the known ones are all of them.
pub counts_add_up :
    (rows : List Row) (items : List Item)
    → AreDistinct [] items
    → count_new (batch_check_existing_ips rows (addresses items)) (addresses items)
        + length (batch_check_existing_ips rows (addresses items))
      ≡ length items
unfolding batch_check_existing_ips member
counts_add_up rows items distinct =
    rw
      (
        add_batches-concat rows (get_batches 1000 (addresses items)) [],
        (get_batches-AreBatches 1000 (addresses items) (omega arith)).0,
      )
      (omega (
        arith,
        length-add_existing rows [] [] items distinct (λ s m. m),
        count_new-count_present rows (add_existing rows (addresses items) []) (addresses items)
            (λ s m. found s m),
        length-addresses items,
      ))
  where
    found :
        (s : String)
        → member s (addresses items) ≡ true
        → member s (add_existing rows (addresses items) []) ≡ has_address rows s
    found s m = ground (arith, member-add_existing rows (addresses items) [] s)
