-- ===== src/Lifecycle/Tests.antt =====
-- Three rows, and the properties of the cleanup and of the expiry on them.
use blacklist.Prelude.{ℕ, ◌≡◌, refl, Bool, true, Option, none, some, String, List, [], ◌∷◌, map}
use blacklist.Storage.{Row}
use blacklist.Lifecycle.{cleanup_expired_ips, is_asked_for, find, manually_expire_ip, any_id}
use blacklist.Lifecycle.Cleanup.{settled, cleanup_expired_ips-settled}
use blacklist.Lifecycle.Expiry.{HasIds, no_rows, with_row, cleanup-manually_expire_ip}

abbrev row : ℕ → String → Bool → Option ℕ → Option ℕ → Row
row id ip_address is_active detection_date removal_date = record {
  id = id;
  ip_address = ip_address;
  source = "REGTECH";
  reason = "scan";
  confidence_level = 50;
  detection_count = 1;
  is_active = is_active;
  detection_date = detection_date;
  removal_date = removal_date;
  country = none;
  data_source = none;
}

abbrev rows : List Row
rows =
    row 1 "203.0.113.7" true (some 20_500) (some 20_700)
    ∷ row 2 "203.0.113.8" true (some 20_500) (some 20_590)
    ∷ row 3 "203.0.113.9" true (some 20_400) none
    ∷ []

cleanup_expired_ips-settled_example :
    (cleanup_expired_ips 20_510 20_600 rows).1 ≡ map (settled 20_510 20_600) rows
cleanup_expired_ips-settled_example = cleanup_expired_ips-settled 20_510 20_600 rows

rows-HasIds : HasIds [] rows
unfolding any_id
rows-HasIds = with_row refl (with_row refl (with_row refl no_rows))

found :
    find (is_asked_for "203.0.113.7" none) rows
    ≡ some (row 1 "203.0.113.7" true (some 20_500) (some 20_700))
unfolding find
found = refl

-- On the day itself the row is active again.
cleanup-manually_expire_ip_example :
    find
      (is_asked_for "203.0.113.7" none)
      (cleanup_expired_ips 20_510 20_600 (manually_expire_ip 20_600 "203.0.113.7" none rows).1).1
    ≡ some (row 1 "203.0.113.7" true (some 20_500) (some 20_600))
cleanup-manually_expire_ip_example =
    cleanup-manually_expire_ip 20_600 20_600 20_510 "203.0.113.7" none rows
      (row 1 "203.0.113.7" true (some 20_500) (some 20_700)) found refl
