-- ===== src/Regtech/Processing/Quality.antt =====
-- What the whole post-processing gives.
use blacklist.Prelude.{
  ℕ, ◌≤◌, ◌≡◌, refl, true, some, none, Option, Bool, not, ltb, List, [], ◌∷◌, String, arith,
  Bool-cases, ◌⊎◌, ◌↔◌, inl, inr,
}
use blacklist.Regtech.Processing.{
  Python, Found, Entry, get, is_valid_ip, parse_date, activity, determine_confidence, build_entry,
  enhance_data_quality, keep_valid, member, ip_key, dedup_loop, fast_deduplication, enhance_all,
  post_process_collected_data,
}
use blacklist.Regtech.Processing.Normalization.{
  IsLawful, IsWritten, parse_date-IsWritten, bounded_confidence_range,
}

module _ (python : Python) (today : ℕ) where
  -- Without a removal date an entry is active; with one, it is if the day is today or later.
  pub IsDue : Option String → Bool → Type 0
  IsDue removal_date is_active =
      ((removal_date ≡ none) × (is_active ≡ true))
      ⊎ ((day : ℕ) × (removal_date ≡ some (python.strftime day))
          × ((is_active ≡ true) ↔ (today ≤ day)))

  -- An entry as it should be: a valid stripped address, a confidence in its range, and active
  -- unless its removal date has passed.
  pub record IsSound (entry : Entry) : Type 0 where
    pub valid : is_valid_ip python entry.ip_address ≡ true
    pub stripped : python.strip entry.ip_address ≡ entry.ip_address
    pub least : 10 ≤ entry.confidence_level
    pub most : entry.confidence_level ≤ 100
    pub active : IsDue entry.removal_date entry.is_active

  pub AllSound : List Entry → Type 0
  AllSound [] = Unit
  AllSound (entry ∷ entries) = IsSound entry × AllSound entries

  -- A collected item with a valid stripped address.
  HasValidIp : Found → Type 0
  HasValidIp item =
      (ip : String) × (item.ip_address ≡ some ip)
      × (is_valid_ip python ip ≡ true)
      × (python.strip ip ≡ ip)

  AllValid : List Found → Type 0
  AllValid [] = Unit
  AllValid (item ∷ items) = HasValidIp item × AllValid items

  module _ (lawful : IsLawful python) where
    keep_valid-AllValid : (items : List Found) → AllValid (keep_valid python items)
    unfolding keep_valid AllValid HasValidIp
    keep_valid-AllValid [] = tt
    keep_valid-AllValid (item ∷ items) =
        let ip_addr = python.strip (get item.ip_address "") in
        elim (Bool-cases (is_valid_ip python ip_addr)) [
          | inl e ↦ rw e (
            (ip_addr, refl, e, lawful.strip_idem (get item.ip_address "")),
            keep_valid-AllValid items,
          )
          | inr e ↦ rw e (keep_valid-AllValid items)
        ]

    dedup_loop-AllValid :
        (seen : List String) (items : List Found)
        → AllValid items
        → AllValid (dedup_loop seen items)
    unfolding dedup_loop AllValid
    dedup_loop-AllValid seen [] h = tt
    dedup_loop-AllValid seen (item ∷ items) (h, hs) =
        elim (Bool-cases (member (ip_key item) seen)) [
          | inl e ↦ rw e (dedup_loop-AllValid seen items hs)
          | inr e ↦ rw e (h, dedup_loop-AllValid (ip_key item ∷ seen) items hs)
        ]

    confidence :
        (item : Found)
        → (10 ≤ determine_confidence python item) × (determine_confidence python item ≤ 100)
    unfolding determine_confidence
    confidence item = bounded_confidence_range _ _ _

    pub activity-IsDue :
        (r : Option String)
        → IsWritten python r
        → (active : Bool) × (activity python today r ≡ some active) × IsDue r active
    unfolding activity IsDue
    activity-IsDue r (inl e) = rw e (true, refl, inl (refl, refl))
    activity-IsDue r (inr (day, e)) =
        rw (e, lawful.strftime_nonempty day, lawful.strptime-strftime day)
          (not (ltb day today), refl, inr (day, refl, ground arith))

    enhance_data_quality_lem :
        (item : Found)
        → HasValidIp item
        → (entry : Entry) × (enhance_data_quality python today item ≡ some entry) × IsSound entry
    unfolding HasValidIp enhance_data_quality build_entry
    enhance_data_quality_lem item (ip, e, valid, stripped) =
        let (active, found, due) =
          activity-IsDue _ (parse_date-IsWritten python item.removal_date) in
        let rd = parse_date python item.removal_date in
        let same : python.strip (get item.ip_address "") ≡ ip = rw e stripped in
        (
          build_entry python item rd active,
          ground arith,
          record {
            valid = rw same valid;
            stripped = rw (same, stripped) refl;
            least = (confidence item).0;
            most = (confidence item).1;
            active = due;
          },
        )

    enhance_all_lem :
        (items : List Found)
        → AllValid items
        → (entries : List Entry) × (enhance_all python today items ≡ some entries)
          × AllSound entries
    unfolding enhance_all AllValid AllSound
    enhance_all_lem [] h = ([], refl, tt)
    enhance_all_lem (item ∷ items) (h, hs) =
        let (entry, e, sound) = enhance_data_quality_lem item h in
        let (entries, es, sounds) = enhance_all_lem items hs in
        (entry ∷ entries, ground arith, (sound, sounds))

    -- Post-processing never raises, whatever was collected, and gives sound entries: with a valid
    -- and stripped address, a confidence from 10 to 100, and active exactly if there is no removal
    -- date or its day is today or later. `IsLawful` is what the standard library documents.
    pub post_process-AllSound :
        (collected_data : List Found)
        → (entries : List Entry) × (post_process_collected_data python today collected_data
            ≡ some entries)
          × AllSound entries
    unfolding post_process_collected_data fast_deduplication
    post_process-AllSound collected_data =
        enhance_all_lem (dedup_loop [] (keep_valid python collected_data)) (
          dedup_loop-AllValid [] (keep_valid python collected_data)
            (keep_valid-AllValid collected_data))
