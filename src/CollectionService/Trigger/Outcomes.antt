-- ===== src/CollectionService/Trigger/Outcomes.antt =====
-- What a trigger leaves, and what it says.
use blacklist.Prelude.{
  ℕ, ◌≡◌, refl, ap, Bool, true, false, ◌||◌, Option, none, some, List, ◌∷◌, String, str_eq, eq_iff,
  if◌then◌else◌, arith, length, Bool-cases, inl, inr,
}
use blacklist.CollectionService.Status.{
  StatusManager, contains, start_collection, stop_collection, update_collection_error, fail_known,
}
use blacklist.CollectionService.Status.Consistency.{
  IsConsistent, contains-discard, start_collection-IsConsistent, stop_collection-IsConsistent,
  update_collection_error-IsConsistent,
}
use blacklist.CollectionService.Trigger.{
  Collected, items, Validated, valid, invalid, Result, Service, perform_collection,
  record_collection_history, save_collection_data, save_validated, release, is_empty,
  collect_and_record, trigger_collection, default_success, default_error_message,
}

-- The source leaves the active ones, whether it was among them or not.
stop_collection-contains :
    (s t : String) (m : StatusManager)
    → contains s (stop_collection t m).1.active_collections
      ≡ (if str_eq t s then false else contains s m.active_collections)
unfolding stop_collection
stop_collection-contains s t m =
    ground (arith, contains-discard s t m.active_collections, eq_iff t s)

update_collection_error-contains :
    (s t error : String) (m : StatusManager)
    → (if str_eq t s
        then false
        else contains s (update_collection_error t error m).active_collections)
      ≡ (if str_eq t s then false else contains s m.active_collections)
unfolding update_collection_error fail_known
update_collection_error-contains s t error m =
    ground (arith, contains-discard s t m.active_collections)

contains_cons :
    (t s : String) (xs : List String) → contains t (s ∷ xs) ≡ (str_eq t s || contains t xs)
unfolding contains
contains_cons t s xs = refl

-- A source that was started was not active, and is.
started_lem :
    (now : ℕ) (source : String) (m : StatusManager)
    → (start_collection now source m).0 ≡ true
    → (t : String)
    → (contains source m.active_collections ≡ false)
      × ((if str_eq source t
            then false
            else contains t (start_collection now source m).1.active_collections)
          ≡ (if str_eq source t then false else contains t m.active_collections))
unfolding start_collection contains
started_lem now source m e t = ground (arith, eq_iff source t, eq_iff t source)

module _ {ℓ} {Item Table : Type ℓ} (lower : String → String) (now : ℕ)
    (validate : List Item → Validated Item Table) (insert_all : List Item → Table → Option Table)
    (history_breaks : Bool) where
  -- Collecting and recording only takes the source itself out of the manager.
  record Keeps (source : String) (s s' : Service Item Table) : Type ℓ where
    same_service : s'.active_collections ≡ s.active_collections
    others :
        (t : String)
        → (if str_eq source t then false else contains t s'.manager.active_collections)
          ≡ (if str_eq source t then false else contains t s.manager.active_collections)
    consistent : IsConsistent s.manager → IsConsistent s'.manager

  abbrev save :
      String
      → Result Item Table
      → Service Item Table
      → Validated Item Table
      → Result Item Table × Service Item Table
  save = save_validated lower now validate insert_all history_breaks

  save_validated-Keeps :
      (source : String) (result : Result Item Table) (s : Service Item Table)
      (v : Validated Item Table)
      → Keeps source s (save source result s v).1
  unfolding save_validated
  save_validated-Keeps source result s (valid found) = record {
    same_service = refl;
    others = λ t. refl;
    consistent = λ h. h;
  }
  save_validated-Keeps source result s (invalid error) = record {
    same_service = refl;
    others = λ t. update_collection_error-contains t source error s.manager;
    consistent = update_collection_error-IsConsistent source error s.manager;
  }

  choose-Keeps :
      (b : Bool) (source : String) (s : Service Item Table)
      (x y : Result Item Table × Service Item Table)
      → Keeps source s x.1
      → Keeps source s y.1
      → Keeps source s (if b then x else y).1
  choose-Keeps true source s x y h k = h
  choose-Keeps false source s x y h k = k

  collect_and_record-Keeps :
      (source : String) (collected : Collected Item Table) (s : Service Item Table)
      → Keeps source s
          (collect_and_record lower now validate insert_all history_breaks source collected s).1
  unfolding collect_and_record
  collect_and_record-Keeps source collected s =
      let result = perform_collection lower source collected in
      let s₁ : Service Item Table = record s {
        history =
            record_collection_history history_breaks source result.collected_count default_success
              default_error_message s.history;
      } in
      let same : Keeps source s s₁ = record {
        same_service = refl;
        others = λ t. refl;
        consistent = λ h. h;
      } in
      let k = save_validated-Keeps source result s₁ (validate result.found) in
      choose-Keeps result.success source s _ _
        (choose-Keeps (is_empty result.found) source s _ _ same
          (record { same_service = k.same_service; others = k.others; consistent = k.consistent }))
        same

  -- What one trigger does to the active collections.
  pub record Releases (s s' : Service Item Table) : Type ℓ where
    pub in_service :
        (t : String) → contains t s'.active_collections ≡ contains t s.active_collections
    pub in_manager :
        (t : String)
        → contains t s'.manager.active_collections ≡ contains t s.manager.active_collections
    pub consistent : IsConsistent s.manager → IsConsistent s'.manager

  -- Whatever is collected, validated and saved, and whether or not recording works, a trigger
  -- leaves the same sources active as before, in the service and in its status manager, and keeps
  -- the manager's states consistent: a source is never left running.
  pub trigger_collection-Releases :
      (source : String) (collected : Collected Item Table) (s : Service Item Table)
      → Releases s
          (trigger_collection lower now validate insert_all history_breaks source collected s).1
  unfolding trigger_collection release
  trigger_collection-Releases source collected s =
      let (started, m) = start_collection now source s.manager in
      let s₁ : Service Item Table = record s {
        active_collections = source ∷ s.active_collections;
        manager = m;
      } in
      let (result, s₂) =
        collect_and_record lower now validate insert_all history_breaks source collected s₁ in
      let k = collect_and_record-Keeps source collected s₁ in
      let same : Releases s s = record {
        in_service = λ t. refl;
        in_manager = λ t. refl;
        consistent = λ h. h;
      } in
      elim (Bool-cases (contains source s.active_collections)) [
        | inl busy ↦ rw busy same
        | inr idle ↦ elim (Bool-cases started) [
          | inr refused ↦ rw (idle, refused) same
          | inl went ↦
              rw (idle, went)
                (record {
                  in_service = λ t. ground (
                    arith,
                    k.same_service,
                    contains-discard t source s₂.active_collections,
                    ap (contains t) k.same_service,
                    eq_iff t source,
                    eq_iff source t,
                    contains_cons t source s.active_collections,
                  );
                  in_manager = λ t. ground (
                    arith,
                    stop_collection-contains t source s₂.manager,
                    k.others t,
                    started_lem now source s.manager went t,
                    eq_iff source t,
                  );
                  consistent = λ h.
                      stop_collection-IsConsistent source s₂.manager
                        (k.consistent (start_collection-IsConsistent now source s.manager h));
                })
        ]
      ]

  unsaved :
      (found : List Item) (table : Table)
      → insert_all found table ≡ none
      → (save_collection_data insert_all found table).1 ≡ table
  unfolding save_collection_data
  unsaved found table e = ground arith

  -- When the database refuses the validated items, the table is unchanged,
  -- and yet the trigger is answered as a success that counts them all as validated.
  pub trigger_collection_unsaved :
      (source : String) (item : Item) (found validated : List Item) (s : Service Item Table)
      → str_eq (lower source) "regtech" ≡ true
      → contains source s.active_collections ≡ false
      → contains source s.manager.active_collections ≡ false
      → validate (item ∷ found) ≡ valid validated
      → insert_all validated s.table ≡ none
      → let (result, s') =
          trigger_collection lower now validate insert_all history_breaks source
            (items (item ∷ found))
            s in
        (result.success ≡ true)
        × (result.validated_count ≡ some (length validated))
        × (s'.table ≡ s.table)
  unfolding trigger_collection release collect_and_record perform_collection
      record_collection_history start_collection save_validated
  trigger_collection_unsaved source item found validated s known idle free checked refused =
      rw (idle, free, known, checked) (refl, refl, unsaved validated s.table refused)
