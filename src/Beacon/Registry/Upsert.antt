-- ===== src/Beacon/Registry/Upsert.antt =====
-- The registry as a map from names: what a lookup finds behind an upsert.
use orbitport.Base.{◌≡◌, refl, List, [], ◌∷◌, some, arith, if◌then◌else◌}
use orbitport.Text.{Text, text_eq}
use orbitport.Text.Equal.{text_eq_iff}
use orbitport.Beacon.Types.{BeaconMetadata}
use orbitport.Beacon.Registry.{find_beacon, upsert_beacon}

-- After an upsert, the lookup of the beacon's name finds the new entry, and every other name finds what
-- it found before; so no other beacon of the registry is lost or changed.
find_beacon-upsert :
    (name : Text) (meta : BeaconMetadata) (beacons : List BeaconMetadata)
    → find_beacon name (upsert_beacon meta beacons)
      ≡ (if text_eq meta.name name then some meta else find_beacon name beacons)
unfolding find_beacon upsert_beacon
find_beacon-upsert name meta [] = refl
find_beacon-upsert name meta (b ∷ bs) = ground (
  arith,
  text_eq_iff meta.name name,
  text_eq_iff b.name meta.name,
  text_eq_iff b.name name,
  find_beacon-upsert name meta bs,
)
