-- ===== src/Regtech/Request/Pages.antt =====
-- The loops of `collect_blacklist_data` over pages and attempts, on the collector's state: what
-- `Regtech.collect_pages` says with the site's answers as an argument, here with the requests, the
-- limiter, the page cache and the session, and the login that follows an expired session.
use blacklist.Prelude.{
  ℕ, zero, suc, Bool, true, false, Option, some, List, [], ◌∷◌, ◌++◌, leb, if◌then◌else◌, String,
  length,
}
use blacklist.RateLimiter.Clock.{World}
use blacklist.Regtech.{
  FailureKind, session_expired, page_data, no_page, Result, returned, raised, page_collection_error,
  collection_blocked, page_attempts, signals_after, may_continue, member, memory_limit,
}
use blacklist.Regtech
use blacklist.Regtech.Session.{Session, Login, Reply, says, raises, ensure_authenticated}
use blacklist.Regtech.Session
use blacklist.Regtech.Request.{Exchange, Collector, Fetched, answer, collect_single_page}
use blacklist.Regtech.Request

-- How a loop ends: with a result, or with a limiter that raises or never answers.
pub data Ending {ℓ} (A : Type ℓ) : Type ℓ where
  ends : Result A → Ending A
  stuck : Ending A

-- What all pages share. `site page attempt` is the exchange of an attempt, `cache_key page` the key
-- of its page.
pub record Context {ℓ} (Item : Type ℓ) : Type ℓ where
  pub jitter : ℕ → ℕ
  pub fuel : ℕ
  pub contains : String → String → Bool
  pub auth_key_of : String → String → String
  pub max_download_bytes : ℕ
  pub parse : List ℕ → Option (List Item)
  pub cache_key : ℕ → String
  pub site : ℕ → ℕ → Exchange
  pub threshold : ℕ

-- `_ensure_authenticated` ran, or its limiter did not let it.
unfoldable pub has_run : Reply → Bool
has_run (says b) = true
has_run raises = false
has_run Session.out_of_fuel = false

module _ {ℓ} {Item : Type ℓ} (x : Context Item) where
  open x use {
    jitter, fuel, contains, auth_key_of, max_download_bytes, parse, cache_key, site, threshold,
  }

  -- The login before a further attempt, where the session has expired.
  unfoldable pub prepare_retry :
      ℕ → Login → Option FailureKind → Collector Item → World → Bool × Collector Item × World
  prepare_retry (suc left) login (some session_expired) c w =
      let (r, s, w') =
        ensure_authenticated contains jitter fuel auth_key_of (λ username password. login) c.session
          w in
      (has_run r, record c { session = s }, w')
  prepare_retry left login kind c w = (true, c, w)

  unfoldable pub try_page :
      ℕ → ℕ → ℕ → ℕ → Collector Item → World → Ending (List Item) × Collector Item × World
  try_page zero page_num attempt signals c w =
      (ends (raised (page_collection_error page_num page_attempts)), c, w)
  try_page (suc left) page_num attempt signals c w =
      let (fetched, c₁, w₁) =
        collect_single_page jitter max_download_bytes parse fuel (cache_key page_num)
          (site page_num attempt) c w in
      elim fetched [
        | Request.out_of_fuel ↦ (stuck, c₁, w₁)
        | answer (page_data items) ↦ (ends (returned items), c₁, w₁)
        | answer (no_page kind) ↦
            let signals' = signals_after kind signals in
            let (went_on, c₂, w₂) = prepare_retry left (site page_num attempt).login kind c₁ w₁ in
            elim (leb threshold signals') [
              | true ↦ (ends (raised (collection_blocked page_num attempt signals')), c₁, w₁)
              | false ↦ elim went_on [
                | true ↦ try_page left page_num (suc attempt) signals' c₂ w₂
                | false ↦ (stuck, c₂, w₂)
              ]
            ]
      ]

  module _ (signature : List Item → String) (max_pages : Option ℕ) where
    unfoldable pub try_pages :
        ℕ
        → ℕ
        → List String
        → List Item
        → Collector Item
        → World
        → Ending (List Item) × Collector Item × World
    try_pages zero page_num seen strategy_data c w = (ends Regtech.out_of_fuel, c, w)
    try_pages (suc pages_left) page_num seen strategy_data c w =
        let (ending, c₁, w₁) = try_page page_attempts page_num 1 0 c w in
        if may_continue max_pages page_num
        then elim ending [
          | stuck ↦ (stuck, c₁, w₁)
          | ends (raised e) ↦ (ends (raised e), c₁, w₁)
          | ends Regtech.out_of_fuel ↦ (ends Regtech.out_of_fuel, c₁, w₁)
          | ends (returned []) ↦ (ends (returned strategy_data), c₁, w₁)
          | ends (returned (item ∷ items)) ↦ elim (member (signature (item ∷ items)) seen) [
            | true ↦ (ends (raised (page_collection_error page_num 1)), c₁, w₁)
            | false ↦ elim (leb memory_limit (length (strategy_data ++ item ∷ items))) [
              | true ↦ (ends (returned (strategy_data ++ item ∷ items)), c₁, w₁)
              | false ↦
                  try_pages pages_left (suc page_num) (signature (item ∷ items) ∷ seen)
                    (strategy_data ++ item ∷ items) c₁ w₁
            ]
          ]
        ]
        else (ends (returned strategy_data), c, w)
