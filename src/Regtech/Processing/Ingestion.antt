-- ===== src/Regtech/Processing/Ingestion.antt =====
-- `_process_regtech_item` of collector/core/regtech/data_processor.py: an item of the site's JSON.
-- Any exception in it gives no item.
use Prim.Native.String.{count}
use blacklist.Prelude.{
  ℕ, zero, suc, ◌≡◌, Bool, true, false, ◌&&◌, ◌||◌, not, Option, none, some, List, [], ◌∷◌, ltb,
  if◌then◌else◌, String, str_eq, arith, Option-cases, ◌≤◌, inl, inr, subst,
}
use blacklist.Prelude.Python.{empty_text}
use blacklist.Prelude.Dict.{lookup}
use blacklist.Regtech.Processing.{
  Python, Entry, first_parse, date_formats, is_valid_ip, activity, bounded_confidence,
}
use blacklist.Regtech.Processing.Normalization.{
  IsLawful, IsWritten, first_parse-IsWritten, bounded_confidence_range,
}
use blacklist.Regtech.Processing.Quality.{IsSound, IsDue, activity-IsDue}

-- A value of JSON: a text, a natural number with its `str()`, or
-- another value with its truth and its `str()`.
pub data Value : Type 0 where
  text : String → Value
  number : ℕ → String → Value
  other : Bool → String → Value

abbrev pub Json : Type 0
Json = List (String × Value)

abbrev pub is_true : Value → Bool
is_true (text s) = not (empty_text s)
is_true (number zero s) = false
is_true (number (suc n) s) = true
is_true (other truth s) = truth

abbrev pub str : Value → String
str (text s) = s
str (number n s) = s
str (other truth s) = s

abbrev present : Option Value → Option Value
present none = none
present (some v) = if is_true v then some v else none

-- The first field that is there and true.
unfoldable pub first_field : Json → List String → Option Value
first_field item [] = none
first_field item (field ∷ fields) =
    let rest = first_field item fields in
    elim (present (lookup field item)) [ some v ↦ some v | none ↦ rest ]

abbrev pub default_reason : String → Bool
default_reason s = str_eq s "REGTECH HTML Parse" || str_eq s "REGTECH Blacklist" || str_eq s ""

-- `item.get("reportCount", 0)`, none where the comparison raises TypeError.
unfoldable pub report_count : Option Value → Option ℕ
report_count none = some 0
report_count (some (number n s)) = some n
report_count (some _) = none

abbrev threat_level : Option Value → String
threat_level none = "medium"
threat_level (some v) = str v

abbrev truth_of : Option Value → Bool
truth_of none = false
truth_of (some v) = is_true v

abbrev shown : Option Value → Option String
shown none = none
shown (some (other false s)) = none
shown (some v) = some (str v)

-- `item.get("country") or item.get("countryCode")`, as a text; none stands for None.
unfoldable pub country_of : Json → Option String
country_of item = elim (present (lookup "country" item)) [
  | some v ↦ some (str v)
  | none ↦ shown (lookup "countryCode" item)
]

module _ (python : Python) where
  open python use {strip, lower}

  -- `_parse_date` on a field; none where it raises TypeError, on anything but a text.
  unfoldable pub date_of : Option Value → Option (Option String)
  date_of none = some none
  date_of (some (text s)) = some (first_parse python date_formats s)
  date_of (some _) = none

  -- The loop over the fields of the reason: a default text is kept while others are tried.
  unfoldable pub find_reason : Json → List String → String → String
  find_reason item [] reason = reason
  find_reason item (field ∷ fields) reason =
      let rest = find_reason item fields reason in
      elim (present (lookup field item)) [
        | none ↦ rest
        | some v ↦
            let raw_reason = strip (str v) in
            let further = find_reason item fields raw_reason in
            if not (default_reason raw_reason)
            then raw_reason
            else (if empty_text raw_reason then rest else further)
      ]

  -- The first longer text.
  unfoldable pub find_content : Json → List String → String → String
  find_content item [] reason = reason
  find_content item (field ∷ fields) reason =
      let rest = find_content item fields reason in
      elim (present (lookup field item)) [
        | none ↦ rest
        | some v ↦
            let additional_content = strip (str v) in
            if not (empty_text additional_content) && ltb (count reason) (count additional_content)
            then additional_content
            else rest
      ]

  unfoldable pub reason_of : Json → String
  reason_of item =
      find_content item
        ("contents" ∷ "detail" ∷ "description" ∷ "threat_desc" ∷ "attack_info" ∷ "malware_name"
          ∷ [])
        (find_reason item
          ("blockReason" ∷ "reason" ∷ "block_reason" ∷ "description" ∷ "content" ∷ [])
          "REGTECH Blacklist")

  unfoldable pub ip_of : Json → Option String
  ip_of item = elim (first_field item ("ipAddr" ∷ "ip_address" ∷ "ip" ∷ "IP" ∷ "target_ip" ∷ [])) [
    | none ↦ none
    | some v ↦
        let ip_address = strip (str v) in
        if empty_text ip_address || not (is_valid_ip python ip_address)
        then none
        else some ip_address
  ]

  abbrev both_dates :
      Option (Option String) → Option (Option String) → Option (Option String × Option String)
  both_dates none removal = none
  both_dates (some detection_date) none = none
  both_dates (some detection_date) (some removal_date) = some (detection_date, removal_date)

  unfoldable pub dates_of : Json → Option (Option String × Option String)
  dates_of item =
      let detection =
        first_field item ("regDt" ∷ "detectionDate" ∷ "reg_dt" ∷ "detect_dt" ∷ "created_dt" ∷ []) in
      let removal =
        first_field item ("delDt" ∷ "removalDate" ∷ "del_dt" ∷ "remove_dt" ∷ "end_dt" ∷ []) in
      both_dates (date_of detection) (date_of removal)

  unfoldable pub confidence_of : Json → Option ℕ
  confidence_of item = elim (report_count (lookup "reportCount" item)) [
    | none ↦ none
    | some n ↦ some (
        bounded_confidence (lower (threat_level (lookup "threatLevel" item)))
          (truth_of (lookup "verified" item)) n)
  ]

  unfoldable pub entry_of : Json → String → Option String → Option String → Bool → ℕ → Entry
  entry_of item ip_address detection_date removal_date is_active confidence = record {
    ip_address = ip_address;
    source = "REGTECH";
    reason = reason_of item;
    confidence_level = confidence;
    detection_count = 1;
    is_active = is_active;
    country = country_of item;
    detection_date = detection_date;
    removal_date = removal_date;
  }

  unfoldable pub process_regtech_item : ℕ → Json → Option Entry
  process_regtech_item today item = elim (ip_of item) [
    | none ↦ none
    | some ip_address ↦ elim (dates_of item) [
      | none ↦ none
      | some (detection_date, removal_date) ↦ elim (activity python today removal_date) [
        | none ↦ none
        | some is_active ↦ elim (confidence_of item) [
          | none ↦ none
          | some confidence ↦
              some (entry_of item ip_address detection_date removal_date is_active confidence)
        ]
      ]
    ]
  ]

  date_of-IsWritten :
      (v : Option Value) (r : Option String) → date_of v ≡ some r → IsWritten python r
  unfolding date_of
  date_of-IsWritten none r e = inl (ground arith)
  date_of-IsWritten (some (text s)) r e =
      let same : first_parse python date_formats s ≡ r = ground arith in
      subst (λ x. IsWritten python x) same (first_parse-IsWritten python date_formats s)
  date_of-IsWritten (some (number n s)) r e = absurd (ground arith)
  date_of-IsWritten (some (other b s)) r e = absurd (ground arith)

  removal-IsWritten :
      (d r : Option (Option String)) (detected removed : Option String)
      → ((x : Option String) → r ≡ some x → IsWritten python x)
      → both_dates d r ≡ some (detected, removed)
      → IsWritten python removed
  removal-IsWritten none r detected removed h e = absurd (ground arith)
  removal-IsWritten (some d) none detected removed h e = absurd (ground arith)
  removal-IsWritten (some d) (some r) detected removed h e = h removed (ground arith)

  dates_of-IsWritten :
      (item : Json) (detected removed : Option String)
      → dates_of item ≡ some (detected, removed)
      → IsWritten python removed
  unfolding dates_of
  dates_of-IsWritten item detected removed e =
      removal-IsWritten _ _ detected removed (λ x h. date_of-IsWritten _ x h) e

  module _ (lawful : IsLawful python) where
    ip_of-valid :
        (item : Json) (ip : String)
        → ip_of item ≡ some ip
        → (is_valid_ip python ip ≡ true) × (strip ip ≡ ip)
    unfolding ip_of
    ip_of-valid item ip e =
        elim (Option-cases
          (first_field item ("ipAddr" ∷ "ip_address" ∷ "ip" ∷ "IP" ∷ "target_ip" ∷ []))) [
            | inl e' ↦ absurd (ground arith)
            | inr (v, e') ↦ (ground arith, ground (arith, lawful.strip_idem (str v)))
          ]

    confidence_of-range : (item : Json) (n : ℕ) → confidence_of item ≡ some n → (10 ≤ n) × (n ≤ 100)
    unfolding confidence_of
    confidence_of-range item n e = elim (Option-cases (report_count (lookup "reportCount" item))) [
      | inl e' ↦ absurd (ground arith)
      | inr (c, e') ↦
          let level = lower (threat_level (lookup "threatLevel" item)) in
          let verified = truth_of (lookup "verified" item) in
          ground (arith, bounded_confidence_range level verified c)
    ]

    -- An item of the site that gives an entry gives a sound one: with a valid and stripped address,
    -- a confidence from 10 to 100, and active unless the removal date has passed.
    pub process_regtech_item-IsSound :
        (today : ℕ) (item : Json) (entry : Entry)
        → process_regtech_item today item ≡ some entry
        → IsSound python today entry
    unfolding process_regtech_item entry_of
    process_regtech_item-IsSound today item entry e = elim (Option-cases (ip_of item)) [
      | inl e₁ ↦ absurd (ground arith)
      | inr (ip, e₁) ↦ elim (Option-cases (dates_of item)) [
        | inl e₂ ↦ absurd (ground arith)
        | inr ((detected, removed), e₂) ↦ elim (Option-cases (activity python today removed)) [
          | inl e₃ ↦ absurd (ground arith)
          | inr (active, e₃) ↦ elim (Option-cases (confidence_of item)) [
            | inl e₄ ↦ absurd (ground arith)
            | inr (n, e₄) ↦
                let (valid, stripped) = ip_of-valid item ip e₁ in
                let (least, most) = confidence_of-range item n e₄ in
                let (active', found, due) =
                  activity-IsDue python today lawful removed
                    (dates_of-IsWritten item detected removed e₂) in
                let agree : active' ≡ active = ground arith in
                let same : entry ≡ entry_of item ip detected removed active n = ground arith in
                rw same (record {
                  valid = valid;
                  stripped = stripped;
                  least = least;
                  most = most;
                  active = subst (λ b. IsDue python today removed b) agree due;
                })
          ]
        ]
      ]
    ]
