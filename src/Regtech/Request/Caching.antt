-- ===== src/Regtech/Request/Caching.antt =====
-- A page that is asked for again.
use blacklist.Prelude.{
  ℕ, ◌+◌, ◌<◌, ◌≡◌, Bool, true, false, Option, none, some, List, String, arith, ltb, ◌==◌,
  if◌then◌else◌, eq_iff, sym, subst,
}
use blacklist.Prelude.Dict.{lookup, lookup-insert}
use blacklist.RateLimiter.Clock.{World, time}
use blacklist.RateLimiter.Bucket.{Outcome, granted, timed_out, zero_division, wait_if_needed}
use blacklist.RateLimiter.Bucket
use blacklist.Regtech.{
  FailureKind, block_suspect, download_too_large, curl_error, http_error, page_data,
}
use blacklist.Regtech.Response.{rpartition, response_text, http_status, utf8_length, is_blank}
use blacklist.Regtech.Request.{
  Run, finished, os_error, other_error, Exchange, Collector, Fetched, answer, fail, succeed,
  parsed_page, read_response, read_run, request, check_page_cache, collect_single_page,
  classify_status, or_none, is_returncode, page_cache_ttl,
}

module _ {ℓ} {Item : Type ℓ} where
  -- A page that is answered is in the cache, stamped with the present time.
  abbrev Caches : String → Fetched Item × Collector Item × World → Type ℓ
  Caches cache_key r =
      (items : List Item)
      → r.0 ≡ answer (page_data items)
      → lookup cache_key r.1.data_cache ≡ some (r.2.now, items)

  module _ (jitter : ℕ → ℕ) (cache_key : String) (c : Collector Item) (w : World) where
    fail-Caches : (kind : FailureKind) (code : Option ℕ) → Caches cache_key (fail kind code c w)
    unfolding fail
    fail-Caches kind code items e = absurd (ground arith)

    choose-Caches :
        (b : Bool) (x y : Fetched Item × Collector Item × World)
        → Caches cache_key x
        → Caches cache_key y
        → Caches cache_key (if b then x else y)
    choose-Caches true x y h k = h
    choose-Caches false x y h k = k

    parsed_page-Caches :
        (parsed : Option (List Item)) → Caches cache_key (parsed_page jitter cache_key parsed c w)
    unfolding parsed_page succeed time
    parsed_page-Caches none items e = fail-Caches block_suspect none items e
    parsed_page-Caches (some items') items e = ground (
      arith,
      eq_iff cache_key cache_key,
      lookup-insert cache_key cache_key ((time jitter w).0, items') c.data_cache,
    )

    module _ (max_download_bytes : ℕ) (parse : List ℕ → Option (List Item)) where
      read_run-Caches :
          (archive_raises : Bool) (run : Run)
          → Caches cache_key
              (read_run jitter max_download_bytes parse cache_key archive_raises run c w)
      unfolding read_run read_response
      read_run-Caches archive_raises os_error = fail-Caches curl_error none
      read_run-Caches archive_raises other_error = fail-Caches http_error none
      read_run-Caches archive_raises (finished returncode stdout) =
          let printed = rpartition stdout in
          let text = response_text printed in
          let status = http_status printed in
          choose-Caches (is_returncode 0 returncode) _ _
            (choose-Caches (ltb max_download_bytes (utf8_length text)) _ _
              (fail-Caches download_too_large none)
              (choose-Caches archive_raises _ _ (fail-Caches http_error none) (
                choose-Caches (status == 200) _ _
                  (choose-Caches (is_blank text) _ _ (fail-Caches block_suspect none)
                    (parsed_page-Caches (parse text)))
                  (fail-Caches (classify_status status) (or_none status)))))
            (fail-Caches _ none)

      request-Caches :
          (exchange : Exchange) (o : Outcome)
          → Caches cache_key (request jitter max_download_bytes parse cache_key exchange o c w)
      unfolding request
      request-Caches exchange granted items e =
          read_run-Caches exchange.archive_raises exchange.run items e
      request-Caches exchange timed_out items e = absurd (ground arith)
      request-Caches exchange zero_division items e = fail-Caches http_error none items e
      request-Caches exchange Bucket.out_of_fuel items e = absurd (ground arith)

  module _ (jitter : ℕ → ℕ) (max_download_bytes : ℕ) (parse : List ℕ → Option (List Item))
      (fuel : ℕ) (cache_key : String) where
    collect_single_page-Caches :
        (exchange : Exchange) (c : Collector Item) (w : World)
        → lookup cache_key c.data_cache ≡ none
        → Caches cache_key
            (collect_single_page jitter max_download_bytes parse fuel cache_key exchange c w)
    unfolding collect_single_page check_page_cache
    collect_single_page-Caches exchange c w fresh =
        let (o, l, w₂) = wait_if_needed jitter fuel c.rate_limiter.limiter w in
        let c₂ : Collector Item = record c {
          rate_limiter = record (c.rate_limiter) { limiter = l };
        } in
        let same : collect_single_page jitter max_download_bytes parse fuel cache_key exchange c w
            ≡ request jitter max_download_bytes parse cache_key exchange o c₂ w₂ =
          ground arith in
        subst (Caches cache_key) (sym same)
          (request-Caches jitter cache_key c₂ w₂ max_download_bytes parse exchange o)

    collect_single_page-hit :
        (exchange : Exchange) (c : Collector Item) (w : World) (t : ℕ) (items : List Item)
        → lookup cache_key c.data_cache ≡ some (t, items)
        → (time jitter w).0 < t + page_cache_ttl
        → collect_single_page jitter max_download_bytes parse fuel cache_key exchange c w
          ≡ (answer (page_data items), c, (time jitter w).1)
    unfolding collect_single_page check_page_cache
    collect_single_page-hit exchange c w t items found early = ground arith

    -- A page that a request gave is given again for a minute, by the cache: a further call reads
    -- the clock, and neither asks the site nor changes the collector.
    pub collect_single_page_again :
        (exchange exchange' : Exchange) (c : Collector Item) (w w' : World) (items : List Item)
        → lookup cache_key c.data_cache ≡ none
        → (collect_single_page jitter max_download_bytes parse fuel cache_key exchange c w).0
          ≡ answer (page_data items)
        → (time jitter w').0
          < (collect_single_page jitter max_download_bytes parse fuel cache_key exchange c w).2.now
            + page_cache_ttl
        → let r = collect_single_page jitter max_download_bytes parse fuel cache_key exchange c w in
          collect_single_page jitter max_download_bytes parse fuel cache_key exchange' r.1 w'
          ≡ (answer (page_data items), r.1, (time jitter w').1)
    collect_single_page_again exchange exchange' c w w' items fresh given early =
        let r = collect_single_page jitter max_download_bytes parse fuel cache_key exchange c w in
        collect_single_page-hit exchange' r.1 w' r.2.now items
          (collect_single_page-Caches exchange c w fresh items given) early
