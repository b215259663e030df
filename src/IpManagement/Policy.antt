-- ===== src/IpManagement/Policy.antt =====
-- What an accepted update may change: the immutable fields of policy.py.
use blacklist.Prelude.{
  ◌≡◌, refl, sym, ◌∙◌, subst, inl, inr, Bool, true, false, Bool-cases, ◌&&◌, Option, none, some,
  String, List, [], ◌∷◌, ◌++◌, str_eq, eq_iff, if◌then◌else◌, arith,
}
use blacklist.Prelude.Dict.{lookup}
use blacklist.IpManagement.{
  Python, Value, Payload, Parsed, refused, accepted, and_then, Change, set_ip_address, set_reason,
  set_source, set_data_source, set_country, set_confidence_level, set_detection_count,
  set_is_active, set_detection_date, set_removal_date, member, all_allowed, parse_payload, text_or,
  optional_text, optional_date, confidence, boolean_or,
}
use blacklist.IpManagement.Updates.{
  change, and_also, at_least_one, unchecked_address, validate_fields, parse_update_payload,
}
use blacklist.IpManagement.Repository.{
  WhitelistEntry, BlacklistEntry, set_whitelist_column, set_blacklist_column, set_columns,
}

-- The address and the source are the key of a row.
abbrev pub is_key_change : Change → Bool
is_key_change (set_ip_address s) = true
is_key_change (set_source s) = true
is_key_change _ = false

unfoldable pub keeps_key : List Change → Bool
keeps_key [] = true
keeps_key (c ∷ changes) = (if is_key_change c then false else true) && keeps_key changes

unfoldable pub KeepsKey : Parsed (List Change) → Type 0
KeepsKey (refused field) = Unit {0}
KeepsKey (accepted changes) = keeps_key changes ≡ true

pub keeps_key-append :
    (xs ys : List Change) → keeps_key xs ≡ true → keeps_key ys ≡ true → keeps_key (xs ++ ys) ≡ true
unfolding keeps_key
keeps_key-append [] ys h k = k
keeps_key-append (x ∷ xs) ys h k = elim (Bool-cases (is_key_change x)) [
  | inl e ↦ absurd (ground arith)
  | inr e ↦ rw e (keeps_key-append xs ys (ground arith) k)
]

and_also-KeepsKey :
    (first second : Parsed (List Change))
    → KeepsKey first
    → KeepsKey second
    → KeepsKey (and_also first second)
unfolding and_also and_then KeepsKey
and_also-KeepsKey (refused field) second h k = tt
and_also-KeepsKey (accepted xs) (refused field) h k = tt
and_also-KeepsKey (accepted xs) (accepted ys) h k = keeps_key-append xs ys h k

module _ {A : Type 0} (set : A → Change) (harmless : (a : A) → is_key_change (set a) ≡ false) where
  checked-KeepsKey : (parsed : Parsed A) → KeepsKey (and_then parsed (λ a. accepted (set a ∷ [])))
  unfolding and_then KeepsKey keeps_key
  checked-KeepsKey (refused field) = tt
  checked-KeepsKey (accepted a) = rw (harmless a) refl

  change-KeepsKey :
      (check : Option Value → Parsed A) (value : Option Value) → KeepsKey (change check set value)
  unfolding change KeepsKey keeps_key
  change-KeepsKey check none = refl
  change-KeepsKey check (some value) = checked-KeepsKey (check (some value))

lookup_refused :
    (allowed : List String) (field : String) (payload : Payload)
    → all_allowed allowed payload ≡ true
    → member field allowed ≡ false
    → lookup field payload ≡ none
unfolding all_allowed lookup
lookup_refused allowed field [] h absent = refl
lookup_refused allowed field ((name, value) ∷ payload) h absent =
    elim (Bool-cases (str_eq name field)) [
      | inl e ↦
          let same : member name allowed ≡ false =
            subst (λ s. member s allowed ≡ false) (sym ((eq_iff name field).0 e)) absent in
          absurd (ground arith)
      | inr e ↦ rw e (lookup_refused allowed field payload (ground arith) absent)
    ]

accepted_keeps : (changes : List Change) → KeepsKey (accepted changes) → keeps_key changes ≡ true
unfolding KeepsKey
accepted_keeps changes h = h

module _ (python : Python) where
  validate_fields-KeepsKey :
      (payload : Payload)
      → lookup "ip_address" payload ≡ none
      → lookup "source" payload ≡ none
      → KeepsKey (validate_fields python payload)
  unfolding validate_fields change unchecked_address KeepsKey keeps_key
  validate_fields-KeepsKey payload no_ip no_source =
      rw (no_ip, no_source)
        (and_also-KeepsKey _ _
          (change-KeepsKey set_reason (λ a. refl) (text_or python "reason" "")
            (lookup "reason" payload))
          (and_also-KeepsKey (accepted []) _ refl (
            and_also-KeepsKey _ _
              (change-KeepsKey set_data_source (λ a. refl) (text_or python "data_source" "")
                (lookup "data_source" payload))
              (and_also-KeepsKey _ _
                (change-KeepsKey set_country (λ a. refl) (optional_text python "country" 10)
                  (lookup "country" payload))
                (and_also-KeepsKey _ _
                  (change-KeepsKey set_confidence_level (λ a. refl) confidence
                    (lookup "confidence_level" payload))
                  (and_also-KeepsKey _ _
                    (change-KeepsKey set_detection_count (λ a. refl) at_least_one
                      (lookup "detection_count" payload))
                    (and_also-KeepsKey _ _
                      (change-KeepsKey set_is_active (λ a. refl) (boolean_or "is_active" true)
                        (lookup "is_active" payload))
                      (and_also-KeepsKey _ _
                        (change-KeepsKey set_detection_date (λ a. refl)
                          (optional_date python "detection_date") (lookup "detection_date" payload))
                        (and_also-KeepsKey _ (accepted [])
                          (change-KeepsKey set_removal_date (λ a. refl)
                            (optional_date python "removal_date") (lookup "removal_date" payload))
                          refl)))))))))

  -- An update that is accepted changes neither the address nor the source of a row, if its allowed
  -- fields name neither.
  pub parse_update_payload-KeepsKey :
      (data_ : Payload) (allowed : List String) (changes : List Change)
      → member "ip_address" allowed ≡ false
      → member "source" allowed ≡ false
      → parse_update_payload python data_ allowed ≡ accepted changes
      → keeps_key changes ≡ true
  unfolding parse_update_payload parse_payload and_then
  parse_update_payload-KeepsKey [] allowed changes no_ip no_source e = cc
  parse_update_payload-KeepsKey (entry ∷ data_) allowed changes no_ip no_source e =
      elim (Bool-cases (all_allowed allowed (entry ∷ data_))) [
        | inl ok ↦
            let same : validate_fields python (entry ∷ data_) ≡ accepted changes = ground arith in
            let kept : KeepsKey (validate_fields python (entry ∷ data_)) =
              validate_fields-KeepsKey (entry ∷ data_)
                (lookup_refused allowed "ip_address" (entry ∷ data_) ok no_ip)
                (lookup_refused allowed "source" (entry ∷ data_) ok no_source) in
            accepted_keeps changes (subst KeepsKey same kept)
        | inr bad ↦ absurd (ground arith)
      ]

set_blacklist_column-key :
    (c : Change) (e : BlacklistEntry)
    → is_key_change c ≡ false
    → ((set_blacklist_column c e).ip_address ≡ e.ip_address)
      × ((set_blacklist_column c e).source ≡ e.source)
unfolding set_blacklist_column
set_blacklist_column-key (set_ip_address s) e h = cc
set_blacklist_column-key (set_reason s) e h = (refl, refl)
set_blacklist_column-key (set_source s) e h = cc
set_blacklist_column-key (set_data_source s) e h = (refl, refl)
set_blacklist_column-key (set_country s) e h = (refl, refl)
set_blacklist_column-key (set_confidence_level n) e h = (refl, refl)
set_blacklist_column-key (set_detection_count n) e h = (refl, refl)
set_blacklist_column-key (set_is_active b) e h = (refl, refl)
set_blacklist_column-key (set_detection_date d) e h = (refl, refl)
set_blacklist_column-key (set_removal_date d) e h = (refl, refl)

set_whitelist_column-key :
    (c : Change) (e : WhitelistEntry)
    → is_key_change c ≡ false
    → (set_whitelist_column c e).ip_address ≡ e.ip_address
unfolding set_whitelist_column
set_whitelist_column-key (set_ip_address s) e h = cc
set_whitelist_column-key (set_reason s) e h = refl
set_whitelist_column-key (set_source s) e h = cc
set_whitelist_column-key (set_data_source s) e h = refl
set_whitelist_column-key (set_country s) e h = refl
set_whitelist_column-key (set_confidence_level n) e h = refl
set_whitelist_column-key (set_detection_count n) e h = refl
set_whitelist_column-key (set_is_active b) e h = refl
set_whitelist_column-key (set_detection_date d) e h = refl
set_whitelist_column-key (set_removal_date d) e h = refl

keeps_key_split :
    (c : Change) (changes : List Change)
    → keeps_key (c ∷ changes) ≡ true
    → (is_key_change c ≡ false) × (keeps_key changes ≡ true)
unfolding keeps_key
keeps_key_split c changes h = elim (Bool-cases (is_key_change c)) [
  | inl e ↦ absurd (ground arith)
  | inr e ↦ (e, ground arith)
]

-- The columns of an accepted update, set one after another, leave the key of the row.
pub set_blacklist_columns-key :
    (changes : List Change) (e : BlacklistEntry)
    → keeps_key changes ≡ true
    → ((set_columns set_blacklist_column changes e).ip_address ≡ e.ip_address)
      × ((set_columns set_blacklist_column changes e).source ≡ e.source)
unfolding set_columns
set_blacklist_columns-key [] e h = (refl, refl)
set_blacklist_columns-key (c ∷ changes) e h =
    let (one, rest) = keeps_key_split c changes h in
    let (ip₁, source₁) = set_blacklist_column-key c e one in
    let (ip₂, source₂) = set_blacklist_columns-key changes (set_blacklist_column c e) rest in
    (ip₂ ∙ ip₁, source₂ ∙ source₁)

pub set_whitelist_columns-key :
    (changes : List Change) (e : WhitelistEntry)
    → keeps_key changes ≡ true
    → (set_columns set_whitelist_column changes e).ip_address ≡ e.ip_address
unfolding set_columns
set_whitelist_columns-key [] e h = refl
set_whitelist_columns-key (c ∷ changes) e h =
    let (one, rest) = keeps_key_split c changes h in
    set_whitelist_columns-key changes (set_whitelist_column c e) rest
    ∙ set_whitelist_column-key c e one
