-- ===== src/Regtech/Processing/Deduplication.antt =====
-- `_fast_deduplication` against the dictionary that its keys stand for.
use blacklist.Prelude.{
  ◌≡◌, refl, ap, ◌∙◌, Bool, true, false, ◌||◌, Option, none, some, List, [], ◌∷◌, String, str_eq,
  eq_iff, if◌then◌else◌, arith,
}
use blacklist.Regtech.Processing.{Found, ip_key, member, dedup_loop, fast_deduplication}

-- The dictionary of a list: the first item with a key.
unfoldable pub first_with : String → List Found → Option Found
first_with key [] = none
first_with key (item ∷ items) = if str_eq (ip_key item) key then some item else first_with key items

unfoldable pub has_key : String → List Found → Bool
has_key key [] = false
has_key key (item ∷ items) = str_eq key (ip_key item) || has_key key items

-- No key stands twice.
pub HasDistinctKeys : List Found → Type 0
HasDistinctKeys [] = Unit
HasDistinctKeys (item ∷ items) = (has_key (ip_key item) items ≡ false) × HasDistinctKeys items

first_with-dedup_loop :
    (key : String) (seen : List String) (items : List Found)
    → first_with key (dedup_loop seen items)
      ≡ (if member key seen then none else first_with key items)
unfolding first_with dedup_loop member
first_with-dedup_loop key seen [] = ground arith
first_with-dedup_loop key seen (item ∷ items) = ground (
  arith,
  first_with-dedup_loop key seen items,
  first_with-dedup_loop key (ip_key item ∷ seen) items,
  eq_iff (ip_key item) key,
  eq_iff key (ip_key item),
)

-- What a list of keys has seen is not in the result.
has_key-dedup_loop :
    (key : String) (seen : List String) (items : List Found)
    → member key seen ≡ true
    → has_key key (dedup_loop seen items) ≡ false
unfolding has_key dedup_loop member
has_key-dedup_loop key seen [] h = refl
has_key-dedup_loop key seen (item ∷ items) h = ground (
  arith,
  has_key-dedup_loop key seen items,
  has_key-dedup_loop key (ip_key item ∷ seen) items,
  eq_iff key (ip_key item),
)

dedup_loop-HasDistinctKeys :
    (seen : List String) (items : List Found) → HasDistinctKeys (dedup_loop seen items)
unfolding dedup_loop HasDistinctKeys member
dedup_loop-HasDistinctKeys seen [] = tt
dedup_loop-HasDistinctKeys seen (item ∷ items) = ground (
  arith,
  dedup_loop-HasDistinctKeys seen items,
  dedup_loop-HasDistinctKeys (ip_key item ∷ seen) items,
  has_key-dedup_loop (ip_key item) (ip_key item ∷ seen) items,
  eq_iff (ip_key item) (ip_key item),
)

-- An independent description: each item, and after it no other of its key.
unfoldable pub without : String → List Found → List Found
without key [] = []
without key (item ∷ items) =
    let rest = without key items in if str_eq (ip_key item) key then rest else item ∷ rest

unfoldable pub first_of_each : List Found → List Found
first_of_each [] = []
first_of_each (item ∷ items) = item ∷ without (ip_key item) (first_of_each items)

-- What is left when every seen key is taken out.
unfoldable unseen : List String → List Found → List Found
unseen seen [] = []
unseen seen (item ∷ items) =
    let rest = unseen seen items in if member (ip_key item) seen then rest else item ∷ rest

unseen-cons :
    (key : String) (seen : List String) (items : List Found)
    → unseen seen (without key items) ≡ unseen (key ∷ seen) items
unfolding unseen without member
unseen-cons key seen [] = refl
unseen-cons key seen (item ∷ items) =
    ground (arith, unseen-cons key seen items, eq_iff (ip_key item) key, eq_iff key (ip_key item))

unseen_again :
    (key : String) (seen : List String) (items : List Found)
    → member key seen ≡ true
    → unseen seen (without key items) ≡ unseen seen items
unfolding unseen without
unseen_again key seen [] h = refl
unseen_again key seen (item ∷ items) h =
    ground (arith, unseen_again key seen items h, eq_iff (ip_key item) key)

dedup_loop-unseen :
    (seen : List String) (items : List Found)
    → dedup_loop seen items ≡ unseen seen (first_of_each items)
unfolding dedup_loop unseen first_of_each
dedup_loop-unseen seen [] = refl
dedup_loop-unseen seen (item ∷ items) = ground (
  arith,
  dedup_loop-unseen seen items,
  dedup_loop-unseen (ip_key item ∷ seen) items,
  unseen-cons (ip_key item) seen (first_of_each items),
  unseen_again (ip_key item) seen (first_of_each items),
)

unseen_nil : (items : List Found) → unseen [] items ≡ items
unfolding unseen member
unseen_nil [] = refl
unseen_nil (item ∷ items) = ap (λ xs. item ∷ xs) (unseen_nil items)

-- Removing duplicates gives the items in their order, each without the later ones of its key: no
-- key stands twice, and the dictionary of the list, the first item of each key, is kept.
pub fast_deduplication_refines :
    (items : List Found)
    → (fast_deduplication items ≡ first_of_each items)
      × HasDistinctKeys (fast_deduplication items)
      × ((key : String) → first_with key (fast_deduplication items) ≡ first_with key items)
unfolding fast_deduplication member
fast_deduplication_refines items = (
  dedup_loop-unseen [] items ∙ unseen_nil (first_of_each items),
  dedup_loop-HasDistinctKeys [] items,
  λ key. first_with-dedup_loop key [] items,
)
