-- ===== src/Regtech/Request/Effects.antt =====
-- What a run of curl does to the collector, and why.
use blacklist.Prelude.{ℕ, ◌<◌, ◌≡◌, ◌⊎◌, Bool, true, false, Option, none, some, List, ◌≤◌, ◌≢◌, []}
use blacklist.RateLimiter.Clock.{World}
use blacklist.RateLimiter.Adaptive.{on_success, on_failure}
use blacklist.Regtech.{
  FailureKind, session_expired, block_suspect, download_too_large, curl_error, http_error,
  page_data, no_page,
}
use blacklist.Prelude.Int.{ℤ, pos}
use blacklist.Regtech.Session.{Session}
use blacklist.Regtech.Response.{rpartition, response_text, http_status, utf8_length, is_blank}
use blacklist.Regtech.Request.Statuses.{IsLoginStatus, IsBlockStatus}
use blacklist.Regtech.Request.{
  Run, finished, os_error, other_error, Collector, Fetched, answer, or_none,
}

module _ {ℓ} {Item : Type ℓ} (max_download_bytes : ℕ) (parse : List ℕ → Option (List Item))
    (archive_raises : Bool) where
  -- The output of a run that gives a response: it is short enough and is archived.
  pub record Responds (run : Run) (text : List ℕ) (status : ℕ) : Type 0 where
    pub output : List ℕ
    pub ended : run ≡ finished (pos 0) output
    pub text_of : text ≡ response_text (rpartition output)
    pub status_of : status ≡ http_status (rpartition output)
    pub short : utf8_length text ≤ max_download_bytes
    pub archived : archive_raises ≡ false

  -- The runs that fail with a kind, and the status that the limiter is told, if any.
  pub data FailsWith : Run → FailureKind → Option ℕ → Type ℓ where
    no_process : FailsWith os_error curl_error none
    exception : FailsWith other_error http_error none
    over_limit : (out : List ℕ) → FailsWith (finished (pos 63) out) download_too_large none
    bad_exit :
        (code : ℤ) (out : List ℕ)
        → code ≢ pos 0
        → code ≢ pos 63
        → FailsWith (finished code out) curl_error none
    too_long :
        (out : List ℕ)
        → max_download_bytes < utf8_length (response_text (rpartition out))
        → FailsWith (finished (pos 0) out) download_too_large none
    unarchived :
        (out : List ℕ) → archive_raises ≡ true → FailsWith (finished (pos 0) out) http_error none
    blank :
        (run : Run) (text : List ℕ)
        → Responds run text 200
        → is_blank text ≡ true
        → FailsWith run block_suspect none
    unparsed :
        (run : Run) (text : List ℕ)
        → Responds run text 200
        → parse text ≡ none
        → FailsWith run block_suspect none
    login_needed :
        (run : Run) (text : List ℕ) (status : ℕ)
        → Responds run text status
        → IsLoginStatus status
        → FailsWith run session_expired (some status)
    blocked :
        (run : Run) (text : List ℕ) (status : ℕ)
        → Responds run text status
        → IsBlockStatus status
        → FailsWith run block_suspect (some status)
    other_status :
        (run : Run) (text : List ℕ) (status : ℕ)
        → Responds run text status
        → status ≢ 200
        → ¬ IsLoginStatus status
        → ¬ IsBlockStatus status
        → FailsWith run http_error (or_none status)

  -- No flag, token, cached login or cookie is left.
  pub record IsDropped (s : Session) : Type 0 where
    unauthenticated : s.authenticated ≡ false
    no_token : s.jwt_expiry ≡ none
    no_logins : s.auth_cache ≡ []
    no_cookies : s.cookies ≡ []

  -- The session is dropped for an expired one, and kept for any other failure.
  abbrev pub IsSettled : FailureKind → Session → Session → Type 0
  IsSettled kind before after =
      ((kind ≡ session_expired) × IsDropped after) ⊎ ((kind ≢ session_expired) × (after ≡ before))

  pub record Succeeded (run : Run) (c : Collector Item) (r : Fetched Item × Collector Item × World)
      : Type ℓ where
    text : List ℕ
    items : List Item
    responds : Responds run text 200
    not_blank : is_blank text ≡ false
    parsed : parse text ≡ some items
    answers : r.0 ≡ answer (page_data items)
    cleared : r.1.last_failure_kind ≡ none
    same_session : r.1.session ≡ c.session
    paced : r.1.rate_limiter ≡ on_success c.rate_limiter

  pub record Failed (run : Run) (c : Collector Item) (w : World)
      (r : Fetched Item × Collector Item × World) : Type ℓ where
    kind : FailureKind
    error_code : Option ℕ
    cause : FailsWith run kind error_code
    answers : r.0 ≡ answer (no_page (some kind))
    recorded : r.1.last_failure_kind ≡ some kind
    session : IsSettled kind c.session r.1.session
    same_cache : r.1.data_cache ≡ c.data_cache
    slowed : r.1.rate_limiter ≡ (on_failure error_code c.rate_limiter w).0

  -- A success or a failure, never neither.
  abbrev pub Settles : Run → Collector Item → World → Fetched Item × Collector Item × World → Type ℓ
  Settles run c w r = Succeeded run c r ⊎ Failed run c w r
