-- ===== src/CollectionService/Tests.antt =====
-- A trigger on an idle service, whose database refuses what is found.
use blacklist.Prelude.{◌≡◌, refl, true, false, Option, none, some, List, [], ◌∷◌, String}
use blacklist.CollectionService.Status.{StatusManager, contains, new_manager, start_collection}
use blacklist.CollectionService.Status.Consistency.{
  IsConsistent, new_manager-IsConsistent, starts, stops, stops_all, fails, run, run-IsConsistent,
}
use blacklist.CollectionService.Trigger.{Service, Validated, valid, items, trigger_collection}
use blacklist.CollectionService.Trigger.Outcomes.{
  Releases, trigger_collection-Releases, trigger_collection_unsaved,
}

run-IsConsistent_example : IsConsistent (
    run
      (starts 1 "regtech" ∷ fails "regtech" "timeout" ∷ stops "regtech" ∷ stops_all ∷ [])
      new_manager)
run-IsConsistent_example =
    run-IsConsistent
      (starts 1 "regtech" ∷ fails "regtech" "timeout" ∷ stops "regtech" ∷ stops_all ∷ [])
      new_manager new_manager-IsConsistent

abbrev busy : StatusManager
busy = (start_collection 5 "regtech" new_manager).1

abbrev service : Service String (List String)
service = record { active_collections = []; manager = new_manager; history = []; table = [] }

abbrev lower : String → String
lower s = s

abbrev validate : List String → Validated String (List String)
validate found = valid found

abbrev refuses : List String → List String → Option (List String)
refuses found table = none

trigger_collection-Releases_example :
    Releases lower 3 validate refuses false service
      (trigger_collection lower 3 validate refuses false "regtech"
        (items ("203.0.113.7" ∷ []))
        service).1
trigger_collection-Releases_example =
    trigger_collection-Releases lower 3 validate refuses false "regtech"
      (items ("203.0.113.7" ∷ [])) service

idle : contains "regtech" [] ≡ false
unfolding contains
idle = refl

idle_manager : contains "regtech" new_manager.active_collections ≡ false
unfolding contains new_manager
idle_manager = refl

trigger_collection_unsaved_example :
    let (result, s') =
      trigger_collection lower 3 validate refuses false "regtech"
        (items ("203.0.113.7" ∷ []))
        service in
    (result.success ≡ true) × (result.validated_count ≡ some 1) × (s'.table ≡ [])
trigger_collection_unsaved_example =
    trigger_collection_unsaved lower 3 validate refuses false "regtech" "203.0.113.7" []
      ("203.0.113.7" ∷ []) service refl idle idle_manager refl refl
