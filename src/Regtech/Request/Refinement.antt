-- ===== src/Regtech/Request/Refinement.antt =====
-- The loops on the collector's state refine those of `Regtech`, which only see answers.
use blacklist.Prelude.{
  ℕ, zero, suc, ◌≤◌, ◌≡◌, ◌⊎◌, inl, inr, refl, Option, none, List, false, ◌∷◌, ◌++◌, ◌==◌,
  if◌then◌else◌, String, arith,
}
use blacklist.RateLimiter.Clock.{World}
use blacklist.Regtech.{
  FailureKind, Answer, page_data, no_page, Result, returned, page_attempts, signals_after,
  attempt_page, collect_pages,
}
use blacklist.Regtech.Request.{Collector, Fetched, answer, collect_single_page}
use blacklist.Regtech.Request
use blacklist.Regtech.Pages.{IsComplete, Page-cases, collect_pages-IsComplete}
use blacklist.Regtech.Request.Asking.{attempt_page_ext, collect_pages_ext}
use blacklist.Regtech.Request.Pages.{
  Ending, ends, stuck, Context, prepare_retry, try_page, try_pages,
}

pub Fetched-cases {ℓ} :
    {Item : Type ℓ} (f : Fetched Item)
    → (f ≡ Request.out_of_fuel)
      ⊎ (((items : List Item) × (f ≡ answer (page_data items)))
          ⊎ ((kind : Option FailureKind) × (f ≡ answer (no_page kind))))
Fetched-cases Request.out_of_fuel = inl refl
Fetched-cases (answer (page_data items)) = inr (inl (items, refl))
Fetched-cases (answer (no_page kind)) = inr (inr (kind, refl))

-- The first answer, and the others after it.
abbrev at_attempt {ℓ} : {A : Type ℓ} → ℕ → A → (ℕ → A) → ℕ → A
at_attempt attempt first others a = if a == attempt then first else others a

-- The answers of the first page, and those of the others.
abbrev at_page {ℓ} : {A : Type ℓ} → ℕ → (ℕ → A) → (ℕ → ℕ → A) → ℕ → ℕ → A
at_page page_num first others p a = if p == page_num then first a else others p a

-- The answer to a request; a limiter that never answers gives none.
abbrev answer_of {ℓ} : {Item : Type ℓ} → Fetched Item → Answer Item
answer_of Request.out_of_fuel = no_page none
answer_of (answer a) = a

abbrev kind_of {ℓ} : {Item : Type ℓ} → Answer Item → Option FailureKind
kind_of (page_data items) = none
kind_of (no_page kind) = kind

module _ {ℓ} {Item : Type ℓ} (x : Context Item) where
  -- The answers of the requests for a page, from an attempt on, each sent in the state in which the
  -- one before it and the login after that leave the collector; none once the attempts are over.
  unfoldable pub attempt_answers : ℕ → ℕ → ℕ → Collector Item → World → ℕ → Answer Item
  attempt_answers zero page_num attempt c w a = no_page none
  attempt_answers (suc left) page_num attempt c w a =
      let (fetched, c₁, w₁) =
        collect_single_page x.jitter x.max_download_bytes x.parse x.fuel (x.cache_key page_num)
          (x.site page_num attempt) c w in
      let (went_on, c₂, w₂) =
        prepare_retry x left (x.site page_num attempt).login (kind_of (answer_of fetched)) c₁ w₁ in
      at_attempt attempt (answer_of fetched) (attempt_answers left page_num (suc attempt) c₂ w₂) a

  -- The answers of the requests for all pages from one on, each page in the state that the attempts
  -- on the one before it leave.
  unfoldable pub page_answers : ℕ → ℕ → Collector Item → World → ℕ → ℕ → Answer Item
  page_answers zero page_num c w p a = no_page none
  page_answers (suc pages_left) page_num c w p a =
      let (ending, c₁, w₁) = try_page x page_attempts page_num 1 0 c w in
      at_page page_num (attempt_answers page_attempts page_num 1 c w)
        (page_answers pages_left (suc page_num) c₁ w₁) p a

  module _ (left page_num attempt : ℕ) (c : Collector Item) (w : World) where
    abbrev fetched : Fetched Item × Collector Item × World
    fetched =
        collect_single_page x.jitter x.max_download_bytes x.parse x.fuel (x.cache_key page_num)
          (x.site page_num attempt) c w

    attempt_answers-first :
        (a : Answer Item)
        → fetched.0 ≡ answer a
        → attempt_answers (suc left) page_num attempt c w attempt ≡ a
    unfolding attempt_answers
    attempt_answers-first a e = ground arith

    attempt_answers-later :
        (kind : Option FailureKind) (a : ℕ)
        → fetched.0 ≡ answer (no_page kind)
        → suc attempt ≤ a
        → let next =
            prepare_retry x left (x.site page_num attempt).login kind fetched.1 fetched.2 in
          attempt_answers (suc left) page_num attempt c w a
          ≡ attempt_answers left page_num (suc attempt) next.1 next.2 a
    unfolding attempt_answers
    attempt_answers-later kind a e le =
        let other : (a == attempt) ≡ false = ground arith in rw (other, e) refl

  -- The attempts on a page are the abstract loop on their answers.
  try_page_refines :
      (left page_num attempt signals : ℕ) (c : Collector Item) (w : World) (r : Result (List Item))
      → (try_page x left page_num attempt signals c w).0 ≡ ends r
      → attempt_page x.threshold
          (λ page a. attempt_answers left page_num attempt c w a)
          left
          page_num
          attempt
          signals
        ≡ r
  unfolding try_page attempt_page
  try_page_refines zero page_num attempt signals c w r h = ground arith
  try_page_refines (suc left) page_num attempt signals c w r h =
      let (fetched, c₁, w₁) =
        collect_single_page x.jitter x.max_download_bytes x.parse x.fuel (x.cache_key page_num)
          (x.site page_num attempt) c w in
      elim (Fetched-cases fetched) [
        | inl e ↦ absurd (ground arith)
        | inr (inl (items, e)) ↦
            let given = attempt_answers-first left page_num attempt c w (page_data items) e in
            ground arith
        | inr (inr (kind, e)) ↦
            let given = attempt_answers-first left page_num attempt c w (no_page kind) e in
            let s' = signals_after kind signals in
            let (went_on, c₂, w₂) =
              prepare_retry x left (x.site page_num attempt).login kind c₁ w₁ in
            let later =
              attempt_page_ext x.threshold
                (λ page a. attempt_answers (suc left) page_num attempt c w a)
                (λ page a. attempt_answers left page_num (suc attempt) c₂ w₂ a) left page_num
                (suc attempt) s'
                (λ a le. attempt_answers-later left page_num attempt c w kind a e le) in
            ground (arith, later, given, try_page_refines left page_num (suc attempt) s' c₂ w₂ r)
      ]

pub Ending-cases {ℓ} :
    {A : Type ℓ} (ending : Ending A) → (ending ≡ stuck) ⊎ ((r : Result A) × (ending ≡ ends r))
Ending-cases stuck = inl refl
Ending-cases (ends r) = inr (r, refl)

module _ {ℓ} {Item : Type ℓ} (x : Context Item) (pages_left page_num : ℕ) (c : Collector Item)
    (w : World) where
  -- The attempts on the first page see their own answers.
  page_answers-first :
      attempt_page x.threshold
        (page_answers x (suc pages_left) page_num c w)
        page_attempts
        page_num
        1
        0
      ≡ attempt_page x.threshold
          (λ p a. attempt_answers x page_attempts page_num 1 c w a)
          page_attempts
          page_num
          1
          0
  unfolding page_answers
  page_answers-first =
      attempt_page_ext x.threshold (page_answers x (suc pages_left) page_num c w)
        (λ p a. attempt_answers x page_attempts page_num 1 c w a) page_attempts page_num 1 0
        (λ a le. ground arith)

  page_answers-later :
      (p a : ℕ)
      → suc page_num ≤ p
      → let next = try_page x page_attempts page_num 1 0 c w in
        page_answers x (suc pages_left) page_num c w p a
        ≡ page_answers x pages_left (suc page_num) next.1 next.2 p a
  unfolding page_answers
  page_answers-later p a le = let other : (p == page_num) ≡ false = ground arith in rw other refl

module _ {ℓ} {Item : Type ℓ} (x : Context Item) (signature : List Item → String)
    (max_pages : Option ℕ) where
  -- Whatever the site gives, and from any state of the collector: where the loops on the state end,
  -- and are not stuck at a limiter, their result is that of the abstract loop `collect_pages` on
  -- the answers of the requests that they send, in the states in which they send them.
  pub try_pages_refines :
      (pages_left page_num : ℕ) (seen : List String) (strategy_data : List Item)
      (c : Collector Item) (w : World) (r : Result (List Item))
      → (try_pages x signature max_pages pages_left page_num seen strategy_data c w).0 ≡ ends r
      → collect_pages x.threshold
          (page_answers x pages_left page_num c w)
          signature
          max_pages
          pages_left
          page_num
          seen
          strategy_data
        ≡ r
  unfolding try_pages collect_pages
  try_pages_refines zero page_num seen strategy_data c w r h = ground arith
  try_pages_refines (suc pages_left) page_num seen strategy_data c w r h =
      let (ending, c₁, w₁) = try_page x page_attempts page_num 1 0 c w in
      let first = page_answers-first x pages_left page_num c w in
      elim (Ending-cases ending) [
        | inl e ↦ ground arith
        | inr (r₁, e) ↦
            let given = try_page_refines x page_attempts page_num 1 0 c w r₁ e in
            elim (Page-cases r₁) [
              | inl (inl e₁) ↦ ground arith
              | inl (inr (item, items, e₁)) ↦
                  let seen' = signature (item ∷ items) ∷ seen in
                  let rest =
                    try_pages_refines pages_left (suc page_num) seen'
                      (strategy_data ++ item ∷ items) c₁ w₁ r in
                  let later =
                    collect_pages_ext x.threshold (page_answers x (suc pages_left) page_num c w)
                      (page_answers x pages_left (suc page_num) c₁ w₁) signature max_pages
                      pages_left (suc page_num) seen' (strategy_data ++ item ∷ items)
                      (λ p a le. page_answers-later x pages_left page_num c w p a le) in
                  ground (arith, later, rest)
              | inr (inl (e₂, e₁)) ↦ ground arith
              | inr (inr e₁) ↦ ground arith
            ]
      ]

  -- When the loops on the state return data, it is `before` with whole pages after it, each given
  -- by the requests for it and with a digest of its own, up to a page that the site answers as
  -- empty, the limit of pages, or the limit of memory.
  pub try_pages-IsComplete :
      (pages_left page_num : ℕ) (seen : List String) (before strategy_data : List Item)
      (c : Collector Item) (w : World)
      → (try_pages x signature max_pages pages_left page_num seen before c w).0
        ≡ ends (returned strategy_data)
      → IsComplete
          (page_answers x pages_left page_num c w)
          signature
          max_pages
          page_num
          seen
          before
          strategy_data
  try_pages-IsComplete pages_left page_num seen before strategy_data c w e =
      collect_pages-IsComplete x.threshold (page_answers x pages_left page_num c w) signature
        max_pages pages_left page_num seen before strategy_data
        (try_pages_refines pages_left page_num seen before c w (returned strategy_data) e)
