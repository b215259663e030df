-- ===== src/Decision/Tests.antt =====
-- The decision service on a table of one address, and the properties on it.
use blacklist.Prelude.{◌≡◌, refl, true, false, none, some, [], ◌∷◌, arith}
use blacklist.Prelude.Dict.{lookup}
use blacklist.Decision.{Tables, Service, Faults, check_blacklist}
use blacklist.Decision.Coherence.{IsCoherent, answer, reference, check_blacklist-reference}
use blacklist.Decision.Outcomes.{
  serve, IsRecent, check_blacklist_up_to_date, check_blacklist-IsRecent, check_blacklist_fails_open,
}

abbrev tables : Tables
tables = record {
  whitelist = record { ip_address = "198.51.100.1"; is_active = true } ∷ [];
  blacklist =
      record {
        ip_address = "203.0.113.7";
        is_active = true;
        reason = some "scan";
        source = some "REGTECH";
        detection_count = some 3;
      }
      ∷ [];
}

abbrev no_faults : Faults
no_faults = record {
  whitelist_get = false;
  whitelist_set = false;
  whitelist_query = false;
  blacklist_get = false;
  blacklist_set = false;
  blacklist_query = false;
}

-- The table of blocked addresses cannot be read.
abbrev broken : Faults
broken = record no_faults { blacklist_query = true }

abbrev service : Service
service = record { has_redis = true; whitelist_cache = []; blacklist_cache = []; decisions = [] }

-- Before the address came into the table, and the service with that answer in its cache.
abbrev earlier_tables : Tables
earlier_tables = record tables { blacklist = [] }

abbrev stale : Service
stale = (check_blacklist earlier_tables no_faults 1_000 "203.0.113.7" service).1

service-IsCoherent : IsCoherent tables 1_000 service
unfolding lookup
service-IsCoherent = record { listed = λ ip. tt; answers = λ ip. tt }

service-IsRecent : IsRecent 1_000 service
unfolding lookup
service-IsRecent = record { listed = λ ip. tt; answers = λ ip. tt }

check_blacklist-reference_example :
    answer (check_blacklist tables no_faults 1_000 "203.0.113.7" service).0
    ≡ reference tables "203.0.113.7"
check_blacklist-reference_example =
    check_blacklist-reference tables 1_000 1_000 "203.0.113.7" no_faults service (omega arith) refl
      refl service-IsCoherent

stale-IsRecent : IsRecent 1_000 stale
stale-IsRecent =
    check_blacklist-IsRecent earlier_tables 1_000 "203.0.113.7" no_faults service service-IsRecent

uncached : lookup "203.0.113.7" service.blacklist_cache ≡ none
unfolding lookup
uncached = refl

check_blacklist_up_to_date_example :
    answer
      (check_blacklist tables no_faults 1_300 "203.0.113.7" (
        serve tables
          ((1_100, "203.0.113.7", broken) ∷ (1_200, "198.51.100.1", no_faults) ∷ [])
          stale)).0
    ≡ reference tables "203.0.113.7"
check_blacklist_up_to_date_example =
    check_blacklist_up_to_date tables 1_000 1_300 "203.0.113.7"
      ((1_100, "203.0.113.7", broken) ∷ (1_200, "198.51.100.1", no_faults) ∷ []) no_faults stale
      stale-IsRecent (omega arith) refl refl

check_blacklist_fails_open_example :
    ((check_blacklist tables broken 1_000 "203.0.113.7" service).0.blocked ≡ false)
    × ((check_blacklist tables broken 1_000 "203.0.113.7" service).1.blacklist_cache ≡ [])
check_blacklist_fails_open_example =
    check_blacklist_fails_open tables 1_000 "203.0.113.7" broken service refl uncached
