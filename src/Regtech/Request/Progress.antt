-- ===== src/Regtech/Request/Progress.antt =====
-- The loops over attempts and pages always come to an ending when the limiters are in a valid state.
use blacklist.Prelude.{
  ℕ, zero, suc, ◌≤◌, ◌≡◌, ◌≢◌, refl, Bool, true, Option, none, some, List, ◌∷◌, ◌++◌, leb, String,
  length, arith, Bool-cases, subst, sym, inl, inr,
}
use blacklist.RateLimiter.Clock.{World}
use blacklist.Regtech.{
  FailureKind, block_suspect, session_expired, download_too_large, curl_error, http_error,
  collection_blocked, page_collection_error, page_data, no_page, Result, returned, raised,
  page_attempts, signals_after, may_continue, member, memory_limit,
}
use blacklist.Regtech
use blacklist.Regtech.Pages.{Page-cases}
use blacklist.Regtech.Session.{Login, ensure_authenticated}
use blacklist.Regtech.Request.{Collector, collect_single_page}
use blacklist.Regtech.Request.Pages.{
  Ending, ends, stuck, Context, prepare_retry, try_page, try_pages,
}
use blacklist.Regtech.Request.Limits.{IsReady, IsPaced-later}
use blacklist.Regtech.Request.Readiness.{Proceeds, collect_single_page-Proceeds}
use blacklist.Regtech.Request.Logins.{ensure_authenticated-Logs}
use blacklist.Regtech.Request.Refinement.{Fetched-cases, Ending-cases}

-- A call that is not stuck and leaves the limiters ready.
pub record Goes {ℓ} {Item : Type ℓ} (w : World) (r : Ending (List Item) × Collector Item × World)
    : Type ℓ where
  pub unstuck : r.0 ≢ stuck
  pub ready : IsReady r.1 r.2
  pub later : w.now ≤ r.2.now

pub record Retries {ℓ} {Item : Type ℓ} (w : World) (r : Bool × Collector Item × World)
    : Type ℓ where
  pub went_on : r.0 ≡ true
  pub ready : IsReady r.1 r.2
  pub later : w.now ≤ r.2.now

module _ {ℓ} {Item : Type ℓ} (x : Context Item) (rounds : ℕ)
    (enough : x.fuel ≡ suc (suc rounds)) where
  stays : (c : Collector Item) (w : World) → IsReady c w → Retries w (true, c, w)
  stays c w r = record { went_on = refl; ready = r; later = omega arith }

  prepare_retry-Retries :
      (left : ℕ) (login : Login) (kind : Option FailureKind) (c : Collector Item) (w : World)
      → IsReady c w
      → Retries w (prepare_retry x left login kind c w)
  unfolding prepare_retry
  prepare_retry-Retries (suc left) login (some session_expired) c w r =
      let site : String → String → Login = λ username password. login in
      let (o, s, w') =
        ensure_authenticated x.contains x.jitter (suc (suc rounds)) x.auth_key_of site c.session
          w in
      let k =
        ensure_authenticated-Logs x.jitter rounds x.contains x.auth_key_of site c.session w
          r.serving in
      rw enough (record {
        went_on = k.ran;
        ready = record {
          paced = IsPaced-later c.rate_limiter w w' k.later r.paced;
          serving = k.serving;
        };
        later = k.later;
      })
  prepare_retry-Retries zero login kind c w r = stays c w r
  prepare_retry-Retries (suc left) login none c w r = stays c w r
  prepare_retry-Retries (suc left) login (some block_suspect) c w r = stays c w r
  prepare_retry-Retries (suc left) login (some download_too_large) c w r = stays c w r
  prepare_retry-Retries (suc left) login (some curl_error) c w r = stays c w r
  prepare_retry-Retries (suc left) login (some http_error) c w r = stays c w r

  try_page-Goes :
      (left page_num attempt signals : ℕ) (c : Collector Item) (w : World)
      → IsReady c w
      → Goes w (try_page x left page_num attempt signals c w)
  unfolding try_page
  try_page-Goes zero page_num attempt signals c w r = record {
    unstuck = λ e. ground arith;
    ready = r;
    later = omega arith;
  }
  try_page-Goes (suc left) page_num attempt signals c w r =
      let f =
        collect_single_page x.jitter x.max_download_bytes x.parse x.fuel (x.cache_key page_num)
          (x.site page_num attempt) c w in
      let p : Proceeds w f = rw enough (
        collect_single_page-Proceeds x.jitter rounds x.max_download_bytes x.parse
          (x.cache_key page_num) (x.site page_num attempt) c w r) in
      let (fetched, c₁, w₁) = f in
      let t = try_page x (suc left) page_num attempt signals c w in
      elim (Fetched-cases fetched) [
        | inl e ↦ absurd (p.answered e)
        | inr (inl (items, e)) ↦
            let same : t ≡ (ends (returned items), c₁, w₁) = ground arith in
            subst (Goes w) (sym same)
              (record { unstuck = λ e'. ground arith; ready = p.ready; later = p.later })
        | inr (inr (kind, e)) ↦
            let signals' = signals_after kind signals in
            let q = prepare_retry-Retries left (x.site page_num attempt).login kind c₁ w₁ p.ready in
            let (went_on, c₂, w₂) =
              prepare_retry x left (x.site page_num attempt).login kind c₁ w₁ in
            let blocked = collection_blocked page_num attempt signals' in
            let again = try_page-Goes left page_num (suc attempt) signals' c₂ w₂ q.ready in
            elim (Bool-cases (leb x.threshold signals')) [
              | inl full ↦
                  let same : t ≡ (ends (raised blocked), c₁, w₁) = ground arith in
                  subst (Goes w) (sym same)
                    (record { unstuck = λ e'. ground arith; ready = p.ready; later = p.later })
              | inr open' ↦
                  let same : t ≡ try_page x left page_num (suc attempt) signals' c₂ w₂ =
                    ground (arith, q.went_on) in
                  subst (Goes w) (sym same) (record {
                    unstuck = again.unstuck;
                    ready = again.ready;
                    later = omega (arith, p.later, q.later, again.later);
                  })
            ]
      ]

  module _ (signature : List Item → String) (max_pages : Option ℕ) where
    try_pages-Goes :
        (pages_left page_num : ℕ) (seen : List String) (strategy_data : List Item)
        (c : Collector Item) (w : World)
        → IsReady c w
        → Goes w (try_pages x signature max_pages pages_left page_num seen strategy_data c w)
    unfolding try_pages
    try_pages-Goes zero page_num seen strategy_data c w r = record {
      unstuck = λ e. ground arith;
      ready = r;
      later = omega arith;
    }
    try_pages-Goes (suc pages_left) page_num seen strategy_data c w r =
        let t = try_pages x signature max_pages (suc pages_left) page_num seen strategy_data c w in
        let (ending, c₁, w₁) = try_page x page_attempts page_num 1 0 c w in
        let p = try_page-Goes page_attempts page_num 1 0 c w r in
        let finishes : (r' : Result (List Item)) → t ≡ (ends r', c₁, w₁) → Goes w t = λ r' same.
          subst (Goes w) (sym same)
            (record { unstuck = λ e'. ground arith; ready = p.ready; later = p.later }) in
        elim (Bool-cases (may_continue max_pages page_num)) [
          | inr over ↦
              let same : t ≡ (ends (returned strategy_data), c, w) = ground arith in
              subst (Goes w) (sym same)
                (record { unstuck = λ e'. ground arith; ready = r; later = omega arith })
          | inl more ↦ elim (Ending-cases ending) [
            | inl e ↦ absurd (p.unstuck e)
            | inr (r₁, e) ↦ elim (Page-cases r₁) [
              | inl (inl e₁) ↦ finishes (returned strategy_data) (ground arith)
              | inr (inl (e₂, e₁)) ↦ finishes (raised e₂) (ground arith)
              | inr (inr e₁) ↦ finishes Regtech.out_of_fuel (ground arith)
              | inl (inr (item, items, e₁)) ↦
                  let all_data = strategy_data ++ item ∷ items in
                  let seen' = signature (item ∷ items) ∷ seen in
                  let again =
                    try_pages-Goes pages_left (suc page_num) seen' all_data c₁ w₁ p.ready in
                  elim (Bool-cases (member (signature (item ∷ items)) seen)) [
                    | inl old ↦ finishes (raised (page_collection_error page_num 1)) (ground arith)
                    | inr new ↦ elim (Bool-cases (leb memory_limit (length all_data))) [
                      | inl full ↦ finishes (returned all_data) (ground arith)
                      | inr room ↦
                          let same : t
                              ≡ try_pages x signature max_pages pages_left (suc page_num) seen'
                                  all_data c₁ w₁ =
                            ground arith in
                          subst (Goes w) (sym same) (record {
                            unstuck = again.unstuck;
                            ready = again.ready;
                            later = omega (arith, p.later, again.later);
                          })
                    ]
                  ]
            ]
          ]
        ]

    -- From limiters in a valid state, with rates above 0 and a token's room in each bucket, and two
    -- rounds of fuel for each wait: whatever the site gives, the loops over pages and attempts are
    -- never stuck at a limiter, and leave the limiters in such a state.
    pub try_pages_progress :
        (pages_left page_num : ℕ) (seen : List String) (strategy_data : List Item)
        (c : Collector Item) (w : World)
        → IsReady c w
        → let r = try_pages x signature max_pages pages_left page_num seen strategy_data c w in
          (r.0 ≢ stuck) × IsReady r.1 r.2
    try_pages_progress pages_left page_num seen strategy_data c w r =
        let g = try_pages-Goes pages_left page_num seen strategy_data c w r in (g.unstuck, g.ready)
