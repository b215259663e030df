-- ===== src/Scoring.antt =====
-- `ThreatScoringService` of app/core/services/scoring_service.py. `recent last_seen` says whether
-- the time reads as a date less than 24 hours ago, which the code's own try block asks Python.
pub mod Bounds
use blacklist.Prelude.{
  ℕ, ◌+◌, ◌*◌, ◌≤◌, ◌≡◌, ◌≢◌, ◌⊎◌, min, refl, Bool, true, false, Option, none, some, String, str_eq,
  eq_iff, leb, ltb, arith, if◌then◌else◌,
}

-- A row of the black list; a missing source is `unknown`.
pub record BlacklistData : Type 0 where
  pub detection_count : ℕ
  pub source : Option String
  pub last_seen : Option String

pub record Context : Type 0 where
  pub in_blacklist : Bool
  pub detection_count : ℕ
  pub source : String
  pub last_seen : Option String

pub data Action : Type 0 where
  block challenge allow : Action

pub record Evaluation : Type 0 where
  pub ip : String
  pub score : ℕ
  pub action : Action
  pub details : Context

abbrev pub block_threshold : ℕ
block_threshold = 80

abbrev pub challenge_threshold : ℕ
challenge_threshold = 50

unfoldable pub source_score : String → ℕ
source_score source =
    if str_eq source "REGTECH" then 15 else (if str_eq source "manual" then 20 else 10)

abbrev activity_score : (String → Bool) → Option String → ℕ
activity_score recent none = 0
activity_score recent (some last_seen) = if recent last_seen then 10 else 0

unfoldable pub calculate_score : (String → Bool) → Context → ℕ
calculate_score recent c =
    min
      ((if c.in_blacklist then 50 else 0)
        + min (c.detection_count * 5) 30
        + source_score c.source
        + activity_score recent c.last_seen)
      100

unfoldable pub get_action : ℕ → Action
get_action score =
    if leb block_threshold score
    then block
    else (if leb challenge_threshold score then challenge else allow)

abbrev source_or_unknown : Option String → String
source_or_unknown none = "unknown"
source_or_unknown (some s) = s

unfoldable pub context_of : Option BlacklistData → Context
context_of none = record {
  in_blacklist = false;
  detection_count = 0;
  source = "unknown";
  last_seen = none;
}
context_of (some d) = record {
  in_blacklist = true;
  detection_count = d.detection_count;
  source = source_or_unknown d.source;
  last_seen = d.last_seen;
}

unfoldable pub evaluate_with_scoring : (String → Bool) → String → Option BlacklistData → Evaluation
evaluate_with_scoring recent ip blacklist_data =
    let c = context_of blacklist_data in
    let score = calculate_score recent c in
    record { ip = ip; score = score; action = get_action score; details = c }
