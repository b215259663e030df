-- ===== src/Regtech/Processing/Tests.antt =====
-- A small standard library whose days are written in strokes, and items to process with it.
use Prim.Native.Char.{nul}
use blacklist.Prelude.{
  ℕ, zero, suc, ◌-◌, ◌≡◌, refl, ap, true, false, none, some, List, [], ◌∷◌, String, str_eq,
  if◌then◌else◌, arith, Bool-cases, inl, inr, eq_iff,
}
use blacklist.Prelude.Python.{empty_text}
use blacklist.Prelude.Dict.{lookup}
use blacklist.Regtech.Processing.{
  Python, Found, Entry, iso_format, post_process_collected_data, date_formats, first_parse,
  is_valid_ip, activity, bounded_confidence,
}
use blacklist.Regtech.Processing.Normalization.{IsLawful}
use blacklist.Regtech.Processing.Deduplication.{
  first_of_each, HasDistinctKeys, first_with, fast_deduplication_refines,
}
use blacklist.Regtech.Processing.{fast_deduplication}
use blacklist.Regtech.Processing.Quality.{AllSound, post_process-AllSound}
use blacklist.Regtech.Processing.Ingestion.{
  Json, text, number, process_regtech_item, entry_of, ip_of, dates_of, confidence_of, country_of,
  reason_of, find_content, find_reason, date_of, report_count, first_field,
}

abbrev strokes : ℕ → String
strokes zero = String.◌∷◌ nul String.[]
strokes (suc n) = String.◌∷◌ nul (strokes n)

abbrev size : String → ℕ
size String.[] = 0
size (String.◌∷◌ c s) = suc (size s)

size-strokes : (n : ℕ) → size (strokes n) ≡ suc n
size-strokes zero = refl
size-strokes (suc n) = ap suc (size-strokes n)

-- One address is private.
abbrev python : Python
python = record {
  strip = λ s. s;
  lower = λ s. s;
  upper = λ s. s;
  prefix = λ n s. s;
  strptime = λ fmt s. if str_eq fmt iso_format then some (size s - 1) else none;
  strftime = strokes;
  ip_address = λ s.
      some (record { is_private = str_eq s "10.0.0.1"; is_loopback = false; is_multicast = false });
}

strokes-nonempty : (day : ℕ) → empty_text (strokes day) ≡ false
strokes-nonempty day = elim (Bool-cases (empty_text (strokes day))) [
  | inl e ↦ absurd (omega (arith, size-strokes day, ap size ((eq_iff (strokes day) "").0 e)))
  | inr e ↦ e
]

python-IsLawful : IsLawful python
python-IsLawful = record {
  strptime-strftime = λ day. rw (size-strokes day) (ap some (omega arith));
  strftime_nonempty = strokes-nonempty;
  strip_idem = λ s. refl;
}

abbrev item : String → String → Found
item ip source = record {
  ip_address = some ip;
  source = some source;
  reason = some "scan";
  country = some "KR";
  detection_date = none;
  removal_date = some "||||";
  threat_level = some "high";
  verified = true;
  report_count = some 12;
  contents = none;
  detail = none;
  description = none;
  threat_desc = none;
  block_reason = none;
}

abbrev items : List Found
items = item "203.0.113.7" "REGTECH" ∷ item "10.0.0.1" "REGTECH" ∷ item "203.0.113.7" "REGTECH" ∷ []

post_process-AllSound_example :
    (entries : List Entry) × (post_process_collected_data python 9 items ≡ some entries)
    × AllSound python 9 entries
post_process-AllSound_example = post_process-AllSound python 9 python-IsLawful items

fast_deduplication_refines_example :
    (fast_deduplication items ≡ first_of_each items)
    × HasDistinctKeys (fast_deduplication items)
    × ((key : String) → first_with key (fast_deduplication items) ≡ first_with key items)
fast_deduplication_refines_example = fast_deduplication_refines items

abbrev sent : Json
sent = ("ip", text "203.0.113.7") ∷ ("delDt", text "||||") ∷ ("reportCount", number 3 "3") ∷ []

abbrev sent_entry : Entry
sent_entry = record {
  ip_address = "203.0.113.7";
  source = "REGTECH";
  reason = "REGTECH Blacklist";
  confidence_level = 80;
  detection_count = 1;
  is_active = false;
  country = none;
  detection_date = none;
  removal_date = some (strokes 3);
}

processed : process_regtech_item python 9 sent ≡ some sent_entry
unfolding process_regtech_item entry_of ip_of dates_of confidence_of country_of reason_of
    find_content find_reason date_of report_count first_field lookup first_parse date_formats
    is_valid_ip activity bounded_confidence
processed = refl
