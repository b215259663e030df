-- ===== src/Regtech/Attempts.antt =====
-- One page: its three attempts, and the capacity of the pages.
use blacklist.Prelude.{
  ℕ, zero, suc, ◌+◌, ◌-◌, ◌*◌, ◌/◌, max, ◌<◌, ◌≤◌, ◌≡◌, ◌≢◌, ◌⊎◌, inl, inr, refl, sym, subst,
  Option, some, List, arith,
}
use blacklist.Regtech.{
  Answer, page_data, no_page, FailureKind, returned, out_of_fuel, signals_after, attempt_page,
  effective_max_pages, effective_page_size, page_size_limit,
}

-- The page is what some attempt, from `first` on and among the next `left`, answered, after
-- attempts that all gave none.
pub record IsServed {ℓ} {Item : Type ℓ} (fetch : ℕ → ℕ → Answer Item) (page_num first left : ℕ)
    (items : List Item) : Type ℓ where
  pub attempt : ℕ
  pub from : first ≤ attempt
  pub before : attempt < first + left
  pub answered : fetch page_num attempt ≡ page_data items
  pub missed :
      (i : ℕ)
      → first ≤ i
      → i < attempt
      → (kind : Option FailureKind) × (fetch page_num i ≡ no_page kind)

Answer-cases {ℓ} :
    {Item : Type ℓ} (a : Answer Item)
    → ((items : List Item) × (a ≡ page_data items))
      ⊎ ((kind : Option FailureKind) × (a ≡ no_page kind))
Answer-cases (page_data items) = inl (items, refl)
Answer-cases (no_page kind) = inr (kind, refl)

-- An attempt without a page, put before the later ones.
IsServed-missed {ℓ} :
    {Item : Type ℓ} (fetch : ℕ → ℕ → Answer Item) (page_num first left : ℕ) (items : List Item)
    (kind : Option FailureKind)
    → fetch page_num first ≡ no_page kind
    → IsServed fetch page_num (suc first) left items
    → IsServed fetch page_num first (suc left) items
IsServed-missed fetch page_num first left items kind none_now later = record {
  attempt = later.attempt;
  from = ground (arith, later.from);
  before = ground (arith, later.before);
  answered = later.answered;
  missed = λ i from before. elim (i-cases i from) [
    | inl here ↦ (kind, subst (λ j. fetch page_num j ≡ no_page kind) (sym here) none_now)
    | inr after ↦ later.missed i after before
  ];
}
  where
    i-cases : (i : ℕ) → first ≤ i → (i ≡ first) ⊎ (suc first ≤ i)
    i-cases i h = ground arith

module _ {ℓ} {Item : Type ℓ} (threshold : ℕ) (fetch : ℕ → ℕ → Answer Item) where
  pub attempt_page-fuel :
      (left page_num attempt signals : ℕ)
      → attempt_page threshold fetch left page_num attempt signals ≢ out_of_fuel
  unfolding attempt_page
  attempt_page-fuel zero page_num attempt signals = ground arith
  attempt_page-fuel (suc left) page_num attempt signals =
      elim (Answer-cases (fetch page_num attempt)) [
        | inl (items, e) ↦ ground arith
        | inr (kind, e) ↦
            ground
              (arith, attempt_page-fuel left page_num (suc attempt) (signals_after kind signals))
      ]

  pub attempt_page-IsServed :
      (left page_num attempt signals : ℕ) (items : List Item)
      → attempt_page threshold fetch left page_num attempt signals ≡ returned items
      → IsServed fetch page_num attempt left items
  unfolding attempt_page
  attempt_page-IsServed zero page_num attempt signals items h = ground arith
  attempt_page-IsServed (suc left) page_num attempt signals items h =
      elim (Answer-cases (fetch page_num attempt)) [
        | inl (items', e) ↦ record {
          attempt = attempt;
          from = omega arith;
          before = omega arith;
          answered = ground arith;
          missed = λ i from before. ground arith;
        }
        | inr (kind, e) ↦ IsServed-missed fetch page_num attempt left items kind e (
            attempt_page-IsServed left page_num (suc attempt) (signals_after kind signals) items
              (ground arith))
      ]

capacity_rounded_up :
    (capacity : ℕ)
    → 0 < capacity
    → (capacity ≤ page_size_limit * max 1 ((capacity + page_size_limit - 1) / page_size_limit))
      × (page_size_limit * max 1 ((capacity + page_size_limit - 1) / page_size_limit)
          < capacity + page_size_limit)
capacity_rounded_up capacity h = ground arith

capacity_positive : (size n : ℕ) → 0 < size → 0 < n → 0 < size * n
capacity_positive size n h₁ h₂ = grind arith

-- A smaller page than asked for is made up by more pages: of a positive capacity nothing that was
-- asked for is cut off, and less than one page is collected beyond it.
pub effective_max_pages-capacity :
    (page_size n : ℕ)
    → 0 < page_size
    → 0 < n
    → (m : ℕ) × (effective_max_pages page_size (some n) ≡ some m)
      × (page_size * n ≤ effective_page_size page_size * m)
      × (effective_page_size page_size * m < page_size * n + effective_page_size page_size)
unfolding effective_max_pages effective_page_size
effective_max_pages-capacity page_size n positive some_page = elim (size-cases page_size) [
  | inl small ↦ (n, ground arith, ground arith, ground arith)
  | inr large ↦ (
    max 1 ((page_size * n + page_size_limit - 1) / page_size_limit),
    ground arith,
    ground (
      arith,
      capacity_rounded_up (page_size * n) (capacity_positive page_size n positive some_page),
    ),
    ground (
      arith,
      capacity_rounded_up (page_size * n) (capacity_positive page_size n positive some_page),
    ),
  )
]
  where
    size-cases : (size : ℕ) → (size ≤ page_size_limit) ⊎ (page_size_limit < size)
    size-cases size = ground arith
