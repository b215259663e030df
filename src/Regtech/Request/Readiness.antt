-- ===== src/Regtech/Request/Readiness.antt =====
-- Limiters in a valid state let every request and every login through, and stay in one: the loops
-- over pages and attempts are never stuck.
use blacklist.Prelude.{
  ℕ, suc, ◌≤◌, ◌≡◌, ◌≢◌, Bool, true, false, Option, none, some, List, String, arith, ◌==◌, ltb,
  if◌then◌else◌,
}
use blacklist.Prelude.Dict.{lookup}
use blacklist.RateLimiter.Clock.{World, time, time_later}
use blacklist.RateLimiter.Bucket.{wait_if_needed}
use blacklist.RateLimiter.Adaptive.{on_success, on_failure}
use blacklist.Regtech.{
  FailureKind, block_suspect, download_too_large, curl_error, http_error, page_data,
}
use blacklist.Regtech.Session.{Session, invalidate_session}
use blacklist.Regtech.Response.{rpartition, response_text, http_status, utf8_length, is_blank}
use blacklist.Regtech.Request.{
  classify_status, or_none, is_returncode, Run, finished, os_error, other_error, Exchange,
  Collector, Fetched, fail, after_kind, succeed, parsed_page, read_response, read_run, request,
  check_page_cache, collect_single_page,
}
use blacklist.Regtech.Request
use blacklist.Regtech.Request.Limits.{
  IsServing, IsReady, IsServing-later, IsPaced-later, wait_if_needed-granted, wait_if_needed-Paces,
  on_failure-Paces, on_success-Paces,
}

after_kind-limiter :
    (kind : FailureKind) (s : Session) → (after_kind kind s).auth_rate_limiter ≡ s.auth_rate_limiter
unfolding after_kind invalidate_session
after_kind-limiter kind s = ground arith

-- A request that gives an answer and leaves the limiters ready.
pub record Proceeds {ℓ} {Item : Type ℓ} (w : World) (r : Fetched Item × Collector Item × World)
    : Type ℓ where
  pub answered : r.0 ≢ Request.out_of_fuel
  pub ready : IsReady r.1 r.2
  pub later : w.now ≤ r.2.now

module _ {ℓ} {Item : Type ℓ} (jitter : ℕ → ℕ) (rounds : ℕ) where
  fail-Proceeds :
      (kind : FailureKind) (error_code : Option ℕ) (c : Collector Item) (w : World)
      → IsReady c w
      → Proceeds w (fail kind error_code c w)
  unfolding fail
  fail-Proceeds kind error_code c w r =
      let (l, w') = on_failure error_code c.rate_limiter w in
      let p = on_failure-Paces jitter rounds error_code c.rate_limiter w r.paced in
      record {
        answered = λ e. ground arith;
        ready = record {
          paced = p.paced;
          serving =
              rw (after_kind-limiter kind c.session)
                (IsServing-later c.session.auth_rate_limiter.limiter w w' p.later r.serving);
        };
        later = p.later;
      }

  succeed-Proceeds :
      (cache_key : String) (items : List Item) (c : Collector Item) (w : World)
      → IsReady c w
      → Proceeds w (succeed jitter cache_key items c w)
  unfolding succeed time
  succeed-Proceeds cache_key items c w r =
      let (now, w') = time jitter w in
      let later : w.now ≤ w'.now = ground (arith, time_later jitter w) in
      let p = on_success-Paces jitter rounds c.rate_limiter w r.paced in
      record {
        answered = λ e. ground arith;
        ready = record {
          paced = IsPaced-later (on_success c.rate_limiter) w w' later p.paced;
          serving = IsServing-later c.session.auth_rate_limiter.limiter w w' later r.serving;
        };
        later = later;
      }

  choose-Proceeds :
      (b : Bool) (w : World) (x y : Fetched Item × Collector Item × World)
      → Proceeds w x
      → Proceeds w y
      → Proceeds w (if b then x else y)
  choose-Proceeds true w x y h k = h
  choose-Proceeds false w x y h k = k

  module _ (max_download_bytes : ℕ) (parse : List ℕ → Option (List Item)) (cache_key : String)
      (c : Collector Item) (w : World) (r : IsReady c w) where
    parsed_page-Proceeds :
        (parsed : Option (List Item)) → Proceeds w (parsed_page jitter cache_key parsed c w)
    unfolding parsed_page
    parsed_page-Proceeds none = fail-Proceeds block_suspect none c w r
    parsed_page-Proceeds (some items) = succeed-Proceeds cache_key items c w r

    read_response-Proceeds :
        (archive_raises : Bool) (text : List ℕ) (status : ℕ)
        → Proceeds w
            (read_response jitter max_download_bytes parse cache_key archive_raises text status c w)
    unfolding read_response
    read_response-Proceeds archive_raises text status =
        choose-Proceeds (ltb max_download_bytes (utf8_length text)) w _ _
          (fail-Proceeds download_too_large none c w r)
          (choose-Proceeds archive_raises w _ _ (fail-Proceeds http_error none c w r) (
            choose-Proceeds (status == 200) w _ _
              (choose-Proceeds (is_blank text) w _ _ (fail-Proceeds block_suspect none c w r)
                (parsed_page-Proceeds (parse text)))
              (fail-Proceeds (classify_status status) (or_none status) c w r)))

    read_run-Proceeds :
        (archive_raises : Bool) (run : Run)
        → Proceeds w (read_run jitter max_download_bytes parse cache_key archive_raises run c w)
    unfolding read_run
    read_run-Proceeds archive_raises os_error = fail-Proceeds curl_error none c w r
    read_run-Proceeds archive_raises other_error = fail-Proceeds http_error none c w r
    read_run-Proceeds archive_raises (finished returncode stdout) =
        let printed = rpartition stdout in
        choose-Proceeds (is_returncode 0 returncode) w _ _
          (read_response-Proceeds archive_raises (response_text printed) (http_status printed))
          (fail-Proceeds _ none c w r)

  open-Proceeds :
      (cached : Option (List Item)) (w : World)
      (f : List Item → Fetched Item × Collector Item × World)
      (x : Fetched Item × Collector Item × World)
      → ((items : List Item) → Proceeds w (f items))
      → Proceeds w x
      → Proceeds {Item = Item} w (elim cached as (λ _. Fetched Item × Collector Item × World) [
        | some items ↦ f items
        | none ↦ x
      ])
  open-Proceeds (some items) w f x h k = h items
  open-Proceeds none w f x h k = k

  Proceeds-later :
      (w w' : World) (x : Fetched Item × Collector Item × World)
      → w.now ≤ w'.now
      → Proceeds w' x
      → Proceeds w x
  Proceeds-later w w' x later p = record {
    answered = p.answered;
    ready = p.ready;
    later = omega (arith, p.later);
  }

  check_page_cache_later :
      (entry : Option (ℕ × List Item)) (w : World) → w.now ≤ (check_page_cache jitter entry w).1.now
  unfolding check_page_cache time
  check_page_cache_later none w = omega arith
  check_page_cache_later (some (t, items)) w = omega arith

  pub collect_single_page-Proceeds :
      (max_download_bytes : ℕ) (parse : List ℕ → Option (List Item)) (cache_key : String)
      (exchange : Exchange) (c : Collector Item) (w : World)
      → IsReady c w
      → Proceeds w (
          collect_single_page jitter max_download_bytes parse
            (suc (suc rounds))
            cache_key
            exchange
            c
            w)
  unfolding collect_single_page request
  collect_single_page-Proceeds max_download_bytes parse cache_key exchange c w r =
      let entry = lookup cache_key c.data_cache in
      let (cached, w₁) = check_page_cache jitter entry w in
      let later = check_page_cache_later entry w in
      let r₁ : IsReady c w₁ = record {
        paced = IsPaced-later c.rate_limiter w w₁ later r.paced;
        serving = IsServing-later c.session.auth_rate_limiter.limiter w w₁ later r.serving;
      } in
      let (o, l, w₂) = wait_if_needed jitter (suc (suc rounds)) c.rate_limiter.limiter w₁ in
      let c₂ : Collector Item = record c {
        rate_limiter = record (c.rate_limiter) { limiter = l };
      } in
      let p = wait_if_needed-Paces jitter rounds c.rate_limiter w₁ r₁.paced in
      let serves : IsServing c.rate_limiter.limiter w₁ = record {
        valid = r₁.paced.bounded.valid;
        moves = omega (arith, r₁.paced.moves, r₁.paced.bounded.floor);
        fits = r₁.paced.fits;
      } in
      let r₂ : IsReady c₂ w₂ = record {
        paced = p.paced;
        serving = IsServing-later c.session.auth_rate_limiter.limiter w₁ w₂ p.later r₁.serving;
      } in
      open-Proceeds cached w (λ items. (Request.answer (page_data items), c, w₁)) _
        (λ items. record { answered = λ e. ground arith; ready = r₁; later = later })
        (Proceeds-later w w₂ _ (omega (arith, later, p.later)) (
          rw (wait_if_needed-granted jitter rounds c.rate_limiter.limiter w₁ serves) (
            read_run-Proceeds max_download_bytes parse cache_key c₂ w₂ r₂ exchange.archive_raises
              exchange.run)))
