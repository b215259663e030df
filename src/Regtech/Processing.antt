-- ===== src/Regtech/Processing.antt =====
-- What becomes of the collected data: collector/core/regtech/data_processor.py on top of
-- collector/core/regtech/normalization.py. `Python` holds what they use of the standard library;
-- a day is its ordinal number. The times of the entries are left out.
--
-- A text field of a collected item is a text where it is there; a field of an item that the site
-- sent is a text or another value of JSON.
pub mod Normalization
pub mod Deduplication
pub mod Ingestion
pub mod Quality
mod Tests
use Prim.Native.String.{count, ◌++◌ as ◌+++◌}
use blacklist.Prelude.{
  ℕ, ◌+◌, ◌-◌, Bool, true, false, ◌&&◌, ◌||◌, not, Option, none, some, List, [], ◌∷◌, ltb, leb, min,
  max, if◌then◌else◌, String, str_eq,
}
use blacklist.Prelude.Python.{empty_text, or_text}

pub record IpAddress : Type 0 where
  pub is_private : Bool
  pub is_loopback : Bool
  pub is_multicast : Bool

-- `strptime fmt text` is the day of a text, none where it raises ValueError; `strftime` writes a
-- day as %Y-%m-%d; `ip_address` is none where it raises ValueError; `prefix n` is `[:n]`.
pub record Python : Type 0 where
  pub strip : String → String
  pub lower : String → String
  pub upper : String → String
  pub prefix : ℕ → String → String
  pub strptime : String → String → Option ℕ
  pub strftime : ℕ → String
  pub ip_address : String → Option IpAddress

abbrev pub iso_format : String
iso_format = "%Y-%m-%d"

unfoldable pub date_formats : List String
date_formats =
    iso_format ∷ "%Y-%m-%d %H:%M:%S" ∷ "%Y/%m/%d" ∷ "%Y.%m.%d" ∷ "%d-%m-%Y" ∷ "%d/%m/%Y"
    ∷ "%d.%m.%Y" ∷ "%Y%m%d" ∷ "%m/%d/%Y" ∷ "%m-%d-%Y" ∷ []

abbrev pub country_mapping : String → Option String
country_mapping s =
    if str_eq s "KR" || str_eq s "KOREA" || str_eq s "한국"
    then some "KR"
    else (if str_eq s "US" || str_eq s "USA" || str_eq s "UNITED STATES"
        then some "US"
        else (if str_eq s "CN" || str_eq s "CHINA" || str_eq s "중국"
            then some "CN"
            else (if str_eq s "JP" || str_eq s "JAPAN" || str_eq s "일본" then some "JP" else none)))

pub record Found : Type 0 where
  pub ip_address : Option String
  pub source : Option String
  pub reason : Option String
  pub country : Option String
  pub detection_date : Option String
  pub removal_date : Option String
  pub threat_level : Option String
  pub verified : Bool
  pub report_count : Option ℕ
  pub contents : Option String
  pub detail : Option String
  pub description : Option String
  pub threat_desc : Option String
  pub block_reason : Option String

-- An entry as it goes to the database.
pub record Entry : Type 0 where
  pub ip_address : String
  pub source : String
  pub reason : String
  pub confidence_level : ℕ
  pub detection_count : ℕ
  pub is_active : Bool
  pub country : Option String
  pub detection_date : Option String
  pub removal_date : Option String

-- `item.get(field, default)`
abbrev pub get {ℓ} : {A : Type ℓ} → Option A → A → A
get none d = d
get (some a) d = a

-- `base_confidence`, the threat level's part and the two bonuses, in the bounds 10 and 100. The
-- level "low" takes 10 off the 80.
unfoldable pub bounded_confidence : String → Bool → ℕ → ℕ
bounded_confidence threat_level verified report_count =
    let base =
      if str_eq threat_level "critical"
      then 95
      else (if str_eq threat_level "high"
          then 90
          else (if str_eq threat_level "low" then 70 else 80)) in
    let checked = if verified then base + 5 else base in
    max 10 (min 100 (if ltb 10 report_count then checked + 5 else checked))

-- `f"{item.get('ip_address')}:{item.get('source', 'REGTECH')}"`
unfoldable pub ip_key : Found → String
ip_key item = get item.ip_address "None" +++ ":" +++ get item.source "REGTECH"

unfoldable pub member : String → List String → Bool
member s [] = false
member s (t ∷ ts) = str_eq t s || member s ts

unfoldable pub dedup_loop : List String → List Found → List Found
dedup_loop seen_ips [] = []
dedup_loop seen_ips (item ∷ items) =
    let rest = dedup_loop seen_ips items in
    let more = dedup_loop (ip_key item ∷ seen_ips) items in
    if not (member (ip_key item) seen_ips) then item ∷ more else rest

unfoldable pub fast_deduplication : List Found → List Found
fast_deduplication items = dedup_loop [] items

module _ (python : Python) where
  open python use {strip, lower, upper, prefix, strptime, strftime, ip_address}

  unfoldable pub normalize_country_code : Option String → Option String
  normalize_country_code none = none
  normalize_country_code (some s) =
      let country_str = strip (upper s) in
      if empty_text s then none else elim (country_mapping country_str) [
        | some code ↦ some code
        | none ↦ if leb 2 (count country_str) then some (prefix 2 country_str) else none
      ]

  unfoldable pub determine_confidence : Found → ℕ
  determine_confidence item =
      bounded_confidence (lower (get item.threat_level "medium")) item.verified
        (get item.report_count 0)

  unfoldable pub first_parse : List String → String → Option String
  first_parse [] s = none
  first_parse (fmt ∷ formats) s =
      let rest = first_parse formats s in
      elim (strptime fmt s) [ some day ↦ some (strftime day) | none ↦ rest ]

  unfoldable pub parse_date : Option String → Option String
  parse_date none = none
  parse_date (some s) = if empty_text s then none else first_parse date_formats s

  unfoldable pub is_valid_ip : String → Bool
  is_valid_ip ip_str = elim (ip_address (strip ip_str)) [
    | none ↦ false
    | some ip ↦ not (ip.is_private || ip.is_loopback || ip.is_multicast)
  ]

  -- Whether an entry is active; none where `strptime` raises on the date that was just written.
  unfoldable pub activity : ℕ → Option String → Option Bool
  activity today none = some true
  activity today (some removal_date) =
      if empty_text removal_date then some true else elim (strptime iso_format removal_date) [
        | none ↦ none
        | some day ↦ some (not (ltb day today))
      ]

  -- The first alternative text of more than five characters.
  unfoldable pub alternative : List (Option String) → String → String
  alternative [] original = original
  alternative (field ∷ fields) original =
      let rest = alternative fields original in
      let alt_content = strip (get field "") in
      if not (empty_text alt_content) && ltb 5 (count alt_content) then alt_content else rest

  unfoldable pub improve_reason : Found → String
  improve_reason item =
      let original = get item.reason "" in
      let found =
        alternative
          (item.contents ∷ item.detail ∷ item.description ∷ item.threat_desc ∷ item.block_reason
            ∷ [])
          original in
      if empty_text original
        || str_eq original "REGTECH HTML Parse"
        || str_eq original "REGTECH Blacklist"
      then (if empty_text found then "REGTECH 위협 IP" else found)
      else original

  unfoldable pub build_entry : Found → Option String → Bool → Entry
  build_entry item removal_date is_active = record {
    ip_address = strip (get item.ip_address "");
    source = "REGTECH";
    reason = improve_reason item;
    confidence_level = determine_confidence item;
    detection_count = 1;
    is_active = is_active;
    country = normalize_country_code item.country;
    detection_date = parse_date item.detection_date;
    removal_date = removal_date;
  }

  unfoldable pub enhance_data_quality : ℕ → Found → Option Entry
  enhance_data_quality today item =
      let removal_date = parse_date item.removal_date in
      elim (activity today removal_date) [
        | none ↦ none
        | some is_active ↦ some (build_entry item removal_date is_active)
      ]

  unfoldable pub keep_valid : List Found → List Found
  keep_valid [] = []
  keep_valid (item ∷ items) =
      let ip_addr = strip (get item.ip_address "") in
      let rest = keep_valid items in
      if is_valid_ip ip_addr then record item { ip_address = some ip_addr } ∷ rest else rest

  unfoldable pub enhance_all : ℕ → List Found → Option (List Entry)
  enhance_all today [] = some []
  enhance_all today (item ∷ items) =
      let rest = enhance_all today items in
      elim (enhance_data_quality today item) [
        | none ↦ none
        | some entry ↦ elim rest [ none ↦ none | some entries ↦ some (entry ∷ entries) ]
      ]

  -- none where a call raises.
  unfoldable pub post_process_collected_data : ℕ → List Found → Option (List Entry)
  post_process_collected_data today collected_data =
      enhance_all today (fast_deduplication (keep_valid collected_data))
