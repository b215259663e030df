-- ===== src/Scoring/Bounds.antt =====
-- The range of the scores, and the action that a listed address and any other can get.
use blacklist.Prelude.{ℕ, ◌+◌, ◌≤◌, ◌≡◌, ◌↔◌, refl, Bool, true, Option, none, some, String, arith}
use blacklist.Scoring.{
  BlacklistData, block, allow, source_score, calculate_score, get_action, context_of,
  evaluate_with_scoring,
}

-- The score of a listed address: at least 60 and at most 100, and 80 from four detections on.
listed_score :
    (recent : String → Bool) (d : BlacklistData)
    → (60 ≤ calculate_score recent (context_of (some d)))
      × (calculate_score recent (context_of (some d)) ≤ 100)
      × (4 ≤ d.detection_count → 80 ≤ calculate_score recent (context_of (some d)))
unfolding calculate_score context_of source_score
listed_score recent d = ground arith

unlisted_score : (recent : String → Bool) → calculate_score recent (context_of none) ≡ 10
unfolding calculate_score context_of source_score
unlisted_score recent = refl

-- A score is at most 100, an address is allowed if and only if it is not listed, and a listed one
-- with four detections or more is blocked, whatever its source and its last activity.
pub evaluate_with_scoring-action :
    (recent : String → Bool) (ip : String) (d : BlacklistData)
    (blacklist_data : Option BlacklistData)
    → ((evaluate_with_scoring recent ip blacklist_data).score ≤ 100)
      × (((evaluate_with_scoring recent ip blacklist_data).action ≡ allow)
          ↔ (blacklist_data ≡ none))
      × ((evaluate_with_scoring recent ip
            (some (record d { detection_count = 4 + d.detection_count }))).action
          ≡ block)
unfolding evaluate_with_scoring get_action
evaluate_with_scoring-action recent ip d none = (
  ground (arith, unlisted_score recent),
  ground (arith, unlisted_score recent),
  ground (arith, listed_score recent (record d { detection_count = 4 + d.detection_count })),
)
evaluate_with_scoring-action recent ip d (some e) = (
  ground (arith, listed_score recent e),
  ground (arith, listed_score recent e),
  ground (arith, listed_score recent (record d { detection_count = 4 + d.detection_count })),
)

-- More detections never lower a score, nor does being listed.
pub calculate_score-monotone :
    (recent : String → Bool) (n m : ℕ) (listed : Bool) (source : String) (last_seen : Option String)
    → n ≤ m
    → calculate_score recent (record {
      in_blacklist = listed;
      detection_count = n;
      source = source;
      last_seen = last_seen;
    })
      ≤ calculate_score recent (record {
        in_blacklist = true;
        detection_count = m;
        source = source;
        last_seen = last_seen;
      })
unfolding calculate_score
calculate_score-monotone recent n m listed source last_seen h = ground arith
