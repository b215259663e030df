-- ===== src/IpManagement/Updates.antt =====
-- The payload of an update in app/core/routes/api/ip_management/policy.py: the changes that its
-- fields make to a row.
use blacklist.Prelude.{ℕ, true, Option, none, some, String, List, [], ◌∷◌, ◌++◌, leb, if◌then◌else◌}
use blacklist.Prelude.Dict.{lookup}
use blacklist.IpManagement.{
  Python, Value, text, number, Payload, Parsed, refused, accepted, and_then, Change, set_ip_address,
  set_reason, set_source, set_data_source, set_country, set_confidence_level, set_detection_count,
  set_is_active, set_detection_date, set_removal_date, parse_payload, text_or, optional_text,
  optional_date, confidence, boolean_or,
}

-- The change that a field makes, where the payload has it.
unfoldable pub change {ℓ} :
    {A : Type ℓ} → (Option Value → Parsed A) → (A → Change) → Option Value → Parsed (List Change)
change check set none = accepted []
change check set (some value) = and_then (check (some value)) (λ a. accepted (set a ∷ []))

unfoldable pub and_also : Parsed (List Change) → Parsed (List Change) → Parsed (List Change)
and_also first second =
    and_then first (λ changes. and_then second (λ more. accepted (changes ++ more)))

unfoldable pub at_least_one : Option Value → Parsed ℕ
at_least_one (some (number n)) = if leb 1 n then accepted n else refused "detection_count"
at_least_one _ = refused "detection_count"

-- An address is not among the fields that `_validate_fields` checks: a text goes on as it is.
unfoldable pub unchecked_address : Option Value → List Change
unchecked_address (some (text s)) = set_ip_address s ∷ []
unchecked_address _ = []

module _ (python : Python) where
  -- `_validate_fields`, in its order.
  unfoldable pub validate_fields : Payload → Parsed (List Change)
  validate_fields payload =
      let required_text : String → Option Value → Parsed String =
        λ field. text_or python field "" in
      and_also (change (required_text "reason") set_reason (lookup "reason" payload)) (
        and_also (change (required_text "source") set_source (lookup "source" payload)) (
          and_also
            (change (required_text "data_source") set_data_source (lookup "data_source" payload))
            (and_also
              (change (optional_text python "country" 10) set_country (lookup "country" payload))
              (and_also (change confidence set_confidence_level (lookup "confidence_level" payload))
                (and_also
                  (change at_least_one set_detection_count (lookup "detection_count" payload))
                  (and_also
                    (change (boolean_or "is_active" true) set_is_active
                      (lookup "is_active" payload))
                    (and_also
                      (change (optional_date python "detection_date") set_detection_date
                        (lookup "detection_date" payload))
                      (and_also
                        (change (optional_date python "removal_date") set_removal_date
                          (lookup "removal_date" payload))
                        (accepted (unchecked_address (lookup "ip_address" payload)))))))))))

  unfoldable pub parse_update_payload : Payload → List String → Parsed (List Change)
  parse_update_payload data_ allowed = and_then (parse_payload data_ allowed) validate_fields
