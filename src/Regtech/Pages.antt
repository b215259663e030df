-- ===== src/Regtech/Pages.antt =====
-- The pages of a strategy: the loop ends, and what it returns is every page up to where it stops.
use blacklist.Prelude.{
  ℕ, zero, suc, ◌+◌, ◌<◌, ◌≤◌, ◌≡◌, ◌≢◌, ◌⊎◌, inl, inr, refl, sym, subst, ◌∙◌, false, Bool-cases,
  Option, List, [], ◌∷◌, ◌++◌, leb, String, length, length-append, concat, append_nil, append_assoc,
  arith,
}
use blacklist.Regtech.{
  Answer, Error, Result, returned, raised, out_of_fuel, attempt_page, collect_pages, member,
  may_continue, memory_limit, page_attempts,
}
use blacklist.Regtech.Attempts.{IsServed, attempt_page-fuel, attempt_page-IsServed}

module _ {ℓ} {Item : Type ℓ} where
  -- Pages in a row, from a page number on: each was served, is not empty, and has a digest that no
  -- page before it has.
  pub data AreServed (fetch : ℕ → ℕ → Answer Item) (signature : List Item → String)
      : ℕ → List String → List (List Item) → Type ℓ where
    no_pages : {n : ℕ} {seen : List String} → AreServed fetch signature n seen []
    next_page :
        {n : ℕ} {seen : List String} {item : Item} {items : List Item} {pages : List (List Item)}
        → IsServed fetch n 1 page_attempts (item ∷ items)
        → member (signature (item ∷ items)) seen ≡ false
        → AreServed fetch signature (suc n) (signature (item ∷ items) ∷ seen) pages
        → AreServed fetch signature n seen ((item ∷ items) ∷ pages)

  -- Why the loop stops before page `n`.
  pub data Stops (fetch : ℕ → ℕ → Answer Item) (max_pages : Option ℕ) (n : ℕ)
      (strategy_data : List Item) : Type ℓ where
    empty_page : IsServed fetch n 1 page_attempts [] → Stops fetch max_pages n strategy_data
    last_page : may_continue max_pages n ≡ false → Stops fetch max_pages n strategy_data
    memory_full : memory_limit ≤ length strategy_data → Stops fetch max_pages n strategy_data

  -- The data is `before` and then whole pages from page `n` on, up to where the loop stops.
  pub record IsComplete (fetch : ℕ → ℕ → Answer Item) (signature : List Item → String)
      (max_pages : Option ℕ) (n : ℕ) (seen : List String) (before strategy_data : List Item)
      : Type ℓ where
    pub pages : List (List Item)
    pub are_all : strategy_data ≡ before ++ concat pages
    pub are_served : AreServed fetch signature n seen pages
    pub stops : Stops fetch max_pages (n + length pages) strategy_data

  pub Page-cases :
      (r : Result (List Item))
      → ((r ≡ returned []) ⊎ ((item : Item) × (items : List Item) × (r ≡ returned (item ∷ items))))
        ⊎ (((e : Error) × (r ≡ raised e)) ⊎ (r ≡ out_of_fuel))
  Page-cases (returned []) = inl (inl refl)
  Page-cases (returned (item ∷ items)) = inl (inr (item, items, refl))
  Page-cases (raised e) = inr (inl (e, refl))
  Page-cases out_of_fuel = inr (inr refl)

module _ {ℓ} {Item : Type ℓ} (threshold : ℕ) (fetch : ℕ → ℕ → Answer Item)
    (signature : List Item → String) (max_pages : Option ℕ) where
  collect_pages-fuel :
      (fuel n : ℕ) (seen : List String) (strategy_data : List Item)
      → length strategy_data < memory_limit
      → memory_limit ≤ length strategy_data + fuel
      → collect_pages threshold fetch signature max_pages fuel n seen strategy_data ≢ out_of_fuel
  unfolding collect_pages
  collect_pages-fuel zero n seen strategy_data below enough = ground arith
  collect_pages-fuel (suc fuel) n seen strategy_data below enough =
      elim (Page-cases (attempt_page threshold fetch page_attempts n 1 0)) [
        | inl (inl e) ↦ ground arith
        | inl (inr (item, items, e)) ↦ ground (
          arith,
          length-append strategy_data (item ∷ items),
          collect_pages-fuel fuel (suc n) (signature (item ∷ items) ∷ seen)
              (strategy_data ++ item ∷ items),
        )
        | inr (inl (error, e)) ↦ ground arith
        | inr (inr e) ↦ ground (arith, attempt_page-fuel threshold fetch page_attempts n 1 0)
      ]

  -- The loop ends, with a page limit or without one: every page adds an item, and the data is
  -- bounded.
  pub collect_pages_terminates :
      collect_pages threshold fetch signature max_pages memory_limit 1 [] [] ≢ out_of_fuel
  collect_pages_terminates = collect_pages-fuel memory_limit 1 [] [] (omega arith) (omega arith)

  stopped :
      (n : ℕ) (seen : List String) (strategy_data : List Item)
      → Stops fetch max_pages n strategy_data
      → IsComplete fetch signature max_pages n seen strategy_data strategy_data
  stopped n seen strategy_data s = record {
    pages = [];
    are_all = sym (append_nil strategy_data);
    are_served = no_pages;
    stops = subst (λ m. Stops fetch max_pages m strategy_data) (omega arith) s;
  }

  with_page :
      (n : ℕ) (seen : List String) (before : List Item) (item : Item)
      (items strategy_data : List Item)
      → IsServed fetch n 1 page_attempts (item ∷ items)
      → member (signature (item ∷ items)) seen ≡ false
      → IsComplete fetch signature max_pages
          (suc n)
          (signature (item ∷ items) ∷ seen)
          (before ++ item ∷ items)
          strategy_data
      → IsComplete fetch signature max_pages n seen before strategy_data
  with_page n seen before item items strategy_data s fresh c = record {
    pages = (item ∷ items) ∷ c.pages;
    are_all = c.are_all ∙ append_assoc before (item ∷ items) (concat c.pages);
    are_served = next_page s fresh c.are_served;
    stops = subst (λ m. Stops fetch max_pages m strategy_data) (omega arith) c.stops;
  }

  -- What the loop returns is all of it: pages one after another, each as the first attempt that
  -- gave one served it, none twice, up to an empty page, the page limit or the memory limit. A
  -- page that fails is never passed over.
  pub collect_pages-IsComplete :
      (fuel n : ℕ) (seen : List String) (before strategy_data : List Item)
      → collect_pages threshold fetch signature max_pages fuel n seen before
        ≡ returned strategy_data
      → IsComplete fetch signature max_pages n seen before strategy_data
  unfolding collect_pages
  collect_pages-IsComplete zero n seen before strategy_data h = ground arith
  collect_pages-IsComplete (suc fuel) n seen before strategy_data h =
      elim (Bool-cases (may_continue max_pages n)) [
        | inr last ↦
            subst (λ ys. IsComplete fetch signature max_pages n seen before ys) (ground arith)
              (stopped n seen before (last_page last))
        | inl more ↦ elim (Page-cases (attempt_page threshold fetch page_attempts n 1 0)) [
          | inl (inl e) ↦
              subst (λ ys. IsComplete fetch signature max_pages n seen before ys) (ground arith)
                (stopped n seen before
                  (empty_page (attempt_page-IsServed threshold fetch page_attempts n 1 0 [] e)))
          | inl (inr (item, items, e)) ↦
              elim (Bool-cases (member (signature (item ∷ items)) seen)) [
                | inl again ↦ ground arith
                | inr fresh ↦
                    with_page n seen before item items strategy_data
                      (attempt_page-IsServed threshold fetch page_attempts n 1 0 (item ∷ items) e)
                      fresh
                      (elim (Bool-cases (leb memory_limit (length (before ++ item ∷ items)))) [
                        | inl full ↦
                            subst
                              (λ ys.
                                IsComplete fetch signature max_pages (suc n)
                                  (signature (item ∷ items) ∷ seen) (before ++ item ∷ items) ys)
                              (ground arith)
                              (stopped (suc n) (signature (item ∷ items) ∷ seen)
                                (before ++ item ∷ items) (memory_full (ground arith)))
                        | inr room ↦
                            collect_pages-IsComplete fuel (suc n) (signature (item ∷ items) ∷ seen)
                              (before ++ item ∷ items) strategy_data (ground arith)
                      ])
              ]
          | inr (inl (error, e)) ↦ ground arith
          | inr (inr e) ↦ ground arith
        ]
      ]
