-- ===== src/IpManagement.antt =====
-- What the administrator's routes accept for the two lists of addresses:
-- app/core/routes/api/ip_management/policy.py with app/core/utils/input_security.py.
--
-- A payload is a JSON object. `Python` holds what the checks use of the standard library: `len`,
-- `strip` and `upper` of a text, `ip_address` with the normal form of an address, none where it
-- raises ValueError, and `fromisoformat` with a date's ordinal number, none where it raises.
mod Tests
pub mod Updates
pub mod Repository
pub mod Routes
pub mod Locality
pub mod Policy
pub mod Writes
pub mod Traffic
pub mod Batch
pub mod Blocking
pub mod Effects
pub mod Decisions
pub mod Coherence
use blacklist.Prelude.{
  ℕ, Bool, true, false, ◌&&◌, ◌||◌, Option, none, some, String, List, [], ◌∷◌, ◌++◌, leb, ltb,
  str_eq, if◌then◌else◌,
}
use blacklist.Prelude.Dict.{lookup}
use blacklist.Prelude.Python.{empty_text}

-- `other` is a negative number, a fraction, a list or an object.
pub data Value : Type 0 where
  text : String → Value
  number : ℕ → Value
  boolean : Bool → Value
  null other : Value

abbrev pub Payload : Type 0
Payload = List (String × Value)

-- BadRequestError with its field, or a result.
pub data Parsed {ℓ} (A : Type ℓ) : Type ℓ where
  refused : String → Parsed A
  accepted : A → Parsed A

unfoldable pub and_then {ℓ κ} : {A : Type ℓ} {B : Type κ} → Parsed A → (A → Parsed B) → Parsed B
and_then (refused field) f = refused field
and_then (accepted a) f = f a

unfoldable pub require {ℓ} : {A : Type ℓ} → String → Option A → Parsed A
require field none = refused field
require field (some a) = accepted a

pub record Python : Type 0 where
  pub len : String → ℕ
  pub strip : String → String
  pub upper : String → String
  pub ip_address : String → Option String
  pub fromisoformat : String → Option ℕ

pub record WhitelistCreate : Type 0 where
  pub ip_address : String
  pub reason : String
  pub source : String
  pub country : Option String

pub record BlacklistCreate : Type 0 where
  pub ip_address : String
  pub reason : String
  pub source : String
  pub confidence_level : ℕ
  pub detection_count : ℕ
  pub is_active : Bool
  pub country : Option String
  pub detection_date : Option ℕ
  pub removal_date : Option ℕ

-- One entry of the dictionary that a repository's update takes.
pub data Change : Type 0 where
  set_ip_address set_reason set_source set_data_source : String → Change
  set_country : Option String → Change
  set_confidence_level set_detection_count : ℕ → Change
  set_is_active : Bool → Change
  set_detection_date set_removal_date : Option ℕ → Change

abbrev pub whitelist_create_fields : List String
whitelist_create_fields = "ip_address" ∷ "reason" ∷ "source" ∷ "country" ∷ []

abbrev pub blacklist_create_fields : List String
blacklist_create_fields =
    "ip_address" ∷ "reason" ∷ "source" ∷ "data_source" ∷ "confidence_level" ∷ "detection_count"
    ∷ "is_active" ∷ "country" ∷ "detection_date" ∷ "removal_date" ∷ []

abbrev pub whitelist_update_fields : List String
whitelist_update_fields = "reason" ∷ "country" ∷ []

abbrev pub blacklist_update_fields : List String
blacklist_update_fields =
    "reason" ∷ "confidence_level" ∷ "is_active" ∷ "country" ∷ "detection_date" ∷ "removal_date" ∷ []

unfoldable pub member : String → List String → Bool
member s [] = false
member s (t ∷ ts) = str_eq t s || member s ts

unfoldable pub all_allowed : List String → Payload → Bool
all_allowed allowed [] = true
all_allowed allowed ((field, value) ∷ data_) = member field allowed && all_allowed allowed data_

unfoldable pub parse_payload : Payload → List String → Parsed Payload
parse_payload [] allowed = refused "body"
parse_payload (entry ∷ data_) allowed =
    if all_allowed allowed (entry ∷ data_) then accepted (entry ∷ data_) else refused "fields"

module _ (python : Python) where
  unfoldable pub parse_ip_value : Value → Parsed String
  parse_ip_value (text s) = require "ip_address" (python.ip_address (python.strip s))
  parse_ip_value _ = refused "ip_address"

  unfoldable pub required_ip : Payload → Parsed String
  required_ip payload = and_then (require "ip_address" (lookup "ip_address" payload)) parse_ip_value

  -- A text that is not blank and has at most 1000 characters.
  unfoldable pub short_text : String → String → Parsed String
  short_text field s =
      if empty_text (python.strip s) || ltb 1_000 (python.len s)
      then refused field
      else accepted (python.strip s)

  unfoldable pub checked_text : String → Value → Parsed String
  checked_text field (text s) = short_text field s
  checked_text field _ = refused field

  unfoldable pub text_or : String → String → Option Value → Parsed String
  text_or field default none = short_text field default
  text_or field default (some value) = checked_text field value

  unfoldable pub upper_text : String → ℕ → String → Parsed (Option String)
  upper_text field maximum s =
      if empty_text (python.strip s) || ltb maximum (python.len (python.strip s))
      then refused field
      else accepted (some (python.upper (python.strip s)))

  unfoldable pub optional_text : String → ℕ → Option Value → Parsed (Option String)
  optional_text field maximum (some (text s)) = upper_text field maximum s
  optional_text field maximum (some null) = accepted none
  optional_text field maximum none = accepted none
  optional_text field maximum _ = refused field

  unfoldable pub optional_date : String → Option Value → Parsed (Option ℕ)
  optional_date field (some (text s)) =
      and_then (require field (python.fromisoformat s)) (λ day. accepted (some day))
  optional_date field (some null) = accepted none
  optional_date field none = accepted none
  optional_date field _ = refused field

unfoldable pub confidence : Option Value → Parsed ℕ
confidence none = accepted 50
confidence (some (number n)) = if leb n 100 then accepted n else refused "confidence_level"
confidence _ = refused "confidence_level"

unfoldable pub detection_count_of : Option Value → Parsed ℕ
detection_count_of none = accepted 1
detection_count_of (some (number n)) =
    if leb 1 n && leb n 1_000_000 then accepted n else refused "detection_count"
detection_count_of _ = refused "detection_count"

unfoldable pub boolean_or : String → Bool → Option Value → Parsed Bool
boolean_or field default none = accepted default
boolean_or field default (some (boolean b)) = accepted b
boolean_or field default _ = refused field

module _ (python : Python) where
  unfoldable pub parse_whitelist_create : Payload → Parsed WhitelistCreate
  parse_whitelist_create data_ = and_then (parse_payload data_ whitelist_create_fields) (λ payload.
      and_then (required_ip python payload) (λ ip.
        and_then (text_or python "reason" "VIP Protection" (lookup "reason" payload)) (λ why.
          and_then (text_or python "source" "MANUAL" (lookup "source" payload)) (λ origin.
            and_then (optional_text python "country" 10 (lookup "country" payload)) (λ land.
              accepted
                (record { ip_address = ip; reason = why; source = origin; country = land }))))))

  unfoldable pub parse_blacklist_create : Payload → Parsed BlacklistCreate
  parse_blacklist_create data_ = and_then (parse_payload data_ blacklist_create_fields) (λ payload.
      and_then (required_ip python payload) (λ ip.
        and_then (text_or python "reason" "Malicious Activity" (lookup "reason" payload)) (λ why.
          and_then (text_or python "source" "MANUAL" (lookup "source" payload)) (λ origin.
            and_then (confidence (lookup "confidence_level" payload)) (λ level.
              and_then (detection_count_of (lookup "detection_count" payload)) (λ count.
                and_then (boolean_or "is_active" true (lookup "is_active" payload)) (λ active.
                  and_then (optional_text python "country" 10 (lookup "country" payload)) (λ land.
                    and_then
                      (optional_date python "detection_date" (lookup "detection_date" payload))
                      (λ from.
                        and_then
                          (optional_date python "removal_date" (lookup "removal_date" payload))
                          (λ until. accepted (record {
                            ip_address = ip;
                            reason = why;
                            source = origin;
                            confidence_level = level;
                            detection_count = count;
                            is_active = active;
                            country = land;
                            detection_date = from;
                            removal_date = until;
                          })))))))))))
