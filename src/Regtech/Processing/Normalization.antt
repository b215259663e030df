-- ===== src/Regtech/Processing/Normalization.antt =====
-- The dates and the confidence that normalization gives.
use blacklist.Prelude.{
  ℕ, ◌≤◌, ◌≡◌, ◌⊎◌, inl, inr, refl, sym, subst, Bool, true, false, not, Option, none, some, List,
  [], ◌∷◌, ltb, String, arith, Bool-cases, Option-cases,
}
use blacklist.Prelude.Python.{empty_text}
use blacklist.Regtech.Processing.{
  Python, iso_format, date_formats, first_parse, parse_date, activity, bounded_confidence,
}

-- What the standard library documents of the functions: a day that is written is read back, as a
-- text that is not empty, and nothing is left to strip after `strip`. `%Y` is documented to write the
-- year with four digits; a C library that drops leading zeros breaks the first law before the year
-- 1000.
pub record IsLawful (python : Python) : Type 0 where
  pub strptime-strftime : (day : ℕ) → python.strptime iso_format (python.strftime day) ≡ some day
  pub strftime_nonempty : (day : ℕ) → empty_text (python.strftime day) ≡ false
  pub strip_idem : (s : String) → python.strip (python.strip s) ≡ python.strip s

module _ (python : Python) where
  -- A date that is found is one that `strftime` wrote.
  abbrev pub IsWritten : Option String → Type 0
  IsWritten r = (r ≡ none) ⊎ ((day : ℕ) × (r ≡ some (python.strftime day)))

  pub first_parse-IsWritten :
      (formats : List String) (s : String) → IsWritten (first_parse python formats s)
  unfolding first_parse
  first_parse-IsWritten [] s = inl refl
  first_parse-IsWritten (fmt ∷ formats) s = elim (Option-cases (python.strptime fmt s)) [
    | inl e ↦
        let same : first_parse python (fmt ∷ formats) s ≡ first_parse python formats s =
          ground arith in
        subst IsWritten (sym same) (first_parse-IsWritten formats s)
    | inr (day, e) ↦ inr (day, ground arith)
  ]

  pub parse_date-IsWritten : (s : Option String) → IsWritten (parse_date python s)
  unfolding parse_date
  parse_date-IsWritten none = inl refl
  parse_date-IsWritten (some s) = elim (Bool-cases (empty_text s)) [
    | inl e ↦ rw e (inl refl)
    | inr e ↦ rw e (first_parse-IsWritten date_formats s)
  ]

  module _ (lawful : IsLawful python) where
    parse_date-strftime :
        (day : ℕ) → parse_date python (some (python.strftime day)) ≡ some (python.strftime day)
    unfolding parse_date first_parse date_formats
    parse_date-strftime day = rw (lawful.strftime_nonempty day, lawful.strptime-strftime day) refl

    -- Normalising a date twice gives what once gives, whatever of the ten formats it has: the
    -- result is a fixed point, so no later pass reads a day for a month.
    pub parse_date_idem :
        (s : Option String) → parse_date python (parse_date python s) ≡ parse_date python s
    unfolding parse_date
    parse_date_idem s = elim (parse_date-IsWritten s) [
      | inl e ↦ rw e refl
      | inr (day, e) ↦ rw e (parse_date-strftime day)
    ]

    -- On a normalised date `strptime` never raises.
    pub activity-parse_date :
        (today : ℕ) (s : Option String)
        → (active : Bool) × (activity python today (parse_date python s) ≡ some active)
    unfolding activity
    activity-parse_date today s = elim (parse_date-IsWritten s) [
      | inl e ↦ rw e (true, refl)
      | inr (day, e) ↦
          rw (e, lawful.strftime_nonempty day, lawful.strptime-strftime day)
            (not (ltb day today), refl)
    ]

pub bounded_confidence_range :
    (threat_level : String) (verified : Bool) (report_count : ℕ)
    → (10 ≤ bounded_confidence threat_level verified report_count)
      × (bounded_confidence threat_level verified report_count ≤ 100)
unfolding bounded_confidence
bounded_confidence_range threat_level verified report_count = (omega arith, omega arith)
