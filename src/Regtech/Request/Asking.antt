-- ===== src/Regtech/Request/Asking.antt =====
-- The loops of `Regtech` ask only for the pages and attempts that they come to.
use blacklist.Prelude.{
  ℕ, zero, suc, ◌≤◌, ◌≡◌, ◌⊎◌, inl, inr, refl, Option, List, ◌∷◌, ◌++◌, String, arith,
}
use blacklist.Regtech.{
  FailureKind, Answer, page_data, no_page, page_attempts, signals_after, attempt_page,
  collect_pages,
}
use blacklist.Regtech.Pages.{Page-cases}

Answer-cases {ℓ} :
    {Item : Type ℓ} (a : Answer Item)
    → ((items : List Item) × (a ≡ page_data items))
      ⊎ ((kind : Option FailureKind) × (a ≡ no_page kind))
Answer-cases (page_data items) = inl (items, refl)
Answer-cases (no_page kind) = inr (kind, refl)

module _ {ℓ} {Item : Type ℓ} (threshold : ℕ) where
  -- An attempt loop only asks for its page, from its attempt on.
  pub attempt_page_ext :
      (fetch fetch' : ℕ → ℕ → Answer Item) (left page_num attempt signals : ℕ)
      → ((a : ℕ) → attempt ≤ a → fetch page_num a ≡ fetch' page_num a)
      → attempt_page threshold fetch left page_num attempt signals
        ≡ attempt_page threshold fetch' left page_num attempt signals
  unfolding attempt_page
  attempt_page_ext fetch fetch' zero page_num attempt signals h = refl
  attempt_page_ext fetch fetch' (suc left) page_num attempt signals h =
      let same = h attempt (omega arith) in
      elim (Answer-cases (fetch page_num attempt)) [
        | inl (items, e) ↦ ground arith
        | inr (kind, e) ↦ ground (
          arith,
          attempt_page_ext fetch fetch' left page_num (suc attempt) (signals_after kind signals)
              (λ a le. h a (omega arith)),
        )
      ]

-- A page loop only asks for pages from its own on.
pub collect_pages_ext {ℓ} :
    {Item : Type ℓ} (threshold : ℕ) (fetch fetch' : ℕ → ℕ → Answer Item)
    (signature : List Item → String) (max_pages : Option ℕ) (fuel page_num : ℕ) (seen : List String)
    (strategy_data : List Item)
    → ((p a : ℕ) → page_num ≤ p → fetch p a ≡ fetch' p a)
    → collect_pages threshold fetch signature max_pages fuel page_num seen strategy_data
      ≡ collect_pages threshold fetch' signature max_pages fuel page_num seen strategy_data
unfolding collect_pages
collect_pages_ext threshold fetch fetch' signature max_pages zero page_num seen strategy_data h =
    refl
collect_pages_ext threshold fetch fetch' signature max_pages (suc fuel) page_num seen strategy_data
      h =
    let same =
      attempt_page_ext threshold fetch fetch' page_attempts page_num 1 0
        (λ a le. h page_num a (omega arith)) in
    elim (Page-cases (attempt_page threshold fetch page_attempts page_num 1 0)) [
      | inl (inl e) ↦ ground arith
      | inl (inr (item, items, e)) ↦ ground (
        arith,
        collect_pages_ext threshold fetch fetch' signature max_pages fuel (suc page_num)
            (signature (item ∷ items) ∷ seen) (strategy_data ++ item ∷ items)
            (λ p a le. h p a (omega arith)),
      )
      | inr (inl (e', e)) ↦ ground arith
      | inr (inr e) ↦ ground arith
    ]
