-- ===== src/Beacon/Registry.antt =====
-- plugins/pkg/plugin/beacon/plugin.go: the registry of beacons, and how a beacon is created in it.
pub mod Upsert
pub mod Lookup
pub mod Loading
use orbitport.Base.{
  ℕ, zero, suc, ◌+◌, ◌*◌, Bool, true, false, not, List, [], ◌∷◌, Option, none, some, if◌then◌else◌,
}
use orbitport.Base.Int.{ℤ, pos, negsuc}
use orbitport.Base.Result.{Result, ok, err}
use orbitport.Base.Traced.{Traced, ◌>>=◌, ◌>>◌, return}
use orbitport.Text.{Text, text_eq, is_empty, lit}
use orbitport.Beacon.Types.{BeaconMetadata, BeaconPayload, Block}
use orbitport.Beacon.Ipfs.{
  Content, block, registry, Call, key_info, get, add, publish, wait, IpfsError, not_found,
  unavailable, World, Head, BeaconError, registry_required, registry_unavailable, canceled,
  get_failed, key_info_failed, add_failed, publish_failed, not_a_registry, M, ask,
}

-- `findBeaconInRegistry`
unfoldable pub find_beacon : Text → List BeaconMetadata → Option BeaconMetadata
find_beacon name [] = none
find_beacon name (b ∷ bs) = if text_eq b.name name then some b else find_beacon name bs

unfoldable pub upsert_beacon : BeaconMetadata → List BeaconMetadata → List BeaconMetadata
upsert_beacon meta [] = meta ∷ []
upsert_beacon meta (b ∷ bs) =
    if text_eq b.name meta.name then meta ∷ bs else b ∷ upsert_beacon meta bs

-- What the registry's name was found to stand for.
pub data Query : Type 0 where
  missing_key unpublished_key : Query
  loaded : List BeaconMetadata → Query

-- The settings that the registry is loaded with; the interval is an int32, in seconds.
pub record Config : Type 0 where
  pub registry_alias : Text
  pub beacon_name : Text
  pub beacon_msg : Text
  pub beacon_interval : ℤ

-- `beaconInterval`, in nanoseconds
unfoldable pub interval_of : ℤ → ℤ
interval_of (pos zero) = pos (60 * 1_000_000_000)
interval_of (pos (suc n)) = pos (suc n * 1_000_000_000)
interval_of (negsuc n) = pos (60 * 1_000_000_000)

-- the final block's metadata of a new beacon
unfoldable pub new_metadata : Config → Text → BeaconMetadata
new_metadata cfg public_key = record {
  name = cfg.beacon_name;
  public_key = public_key;
  version = lit "1.0";
  encoding = lit "json";
  batch_size = 3;
  message = cfg.beacon_msg;
  interval = interval_of cfg.beacon_interval;
}

abbrev pub genesis : BeaconPayload → Option BeaconMetadata → Content
genesis payload meta = block (record { link = []; payload = some payload; metadata = meta })

-- how the read of a head is reported
unfoldable pub read_head : Result IpfsError Head → Result BeaconError Query
read_head (err not_found) = ok unpublished_key
read_head (err unavailable) = err get_failed
read_head (ok head) = elim (head.as_registry) [ none ↦ err not_a_registry | some r ↦ ok (loaded r) ]

module _ (w : World) where
  -- what the read of a key's head comes to
  unfoldable pub query_head : Text → M Query
  query_head name h = (read_head (w.get_reply (get name ∷ h)), get name ∷ h)

  unfoldable pub query_registry : Text → M Query
  query_registry alias = do
    name ← ask w.key_info_reply (key_info alias) key_info_failed
    elim name [
      | none ↦ return missing_key
      | some n ↦ if is_empty n then return missing_key else query_head n
    ]

  -- The loop of `loadRegistryWithClient`, with `left` attempts after this one.
  unfoldable pub query_loop : ℕ → ℕ → Text → M Query
  query_loop zero pause alias h =
      let r = query_registry alias h in
      elim (r.0) [ ok q ↦ (ok q, r.1) | err e ↦ (err registry_unavailable, r.1) ]
  query_loop (suc left) pause alias h =
      let r = query_registry alias h in
      let waited = wait pause ∷ r.1 in
      let again = query_loop left (pause * 2) alias waited in
      elim (r.0) [
        | ok q ↦ (ok q, r.1)
        | err e ↦ if w.fires waited then again else (err canceled, waited)
      ]

  unfoldable pub create_beacon : Config → M BeaconMetadata
  create_beacon cfg h =
      let payload : BeaconPayload = record { sequence = 0; timestamp = w.now h; ctrng = [] } in
      (ask w.add_reply (add (genesis payload none)) add_failed >>= λ temp.
      ask w.publish_reply (publish temp cfg.beacon_name) publish_failed >>= λ public_key.
      ask w.add_reply (add (genesis payload (some (new_metadata cfg public_key)))) add_failed
      >>= λ final. ask w.publish_reply (publish final cfg.beacon_name) publish_failed >>= λ _.
          return (new_metadata cfg public_key))
        h

  unfoldable pub publish_registry : Text → List BeaconMetadata → M Text
  publish_registry alias beacons = do
    cid ← ask w.add_reply (add (registry beacons)) add_failed
    published ← ask w.publish_reply (publish cid alias) publish_failed
    return cid

  -- the part behind the lookup, for a registry that lacks the beacon
  unfoldable pub create_in : Config → List BeaconMetadata → M (List BeaconMetadata)
  create_in cfg beacons = do
    meta ← create_beacon cfg
    cid ← publish_registry cfg.registry_alias (upsert_beacon meta beacons)
    return (meta ∷ [])

  -- the cases of the lookup
  unfoldable pub resume_or_create : Config → Query → M (List BeaconMetadata)
  resume_or_create cfg missing_key = create_in cfg []
  resume_or_create cfg unpublished_key = create_in cfg []
  resume_or_create cfg (loaded beacons) = elim (find_beacon cfg.beacon_name beacons) [
    | some meta ↦ return (meta ∷ [])
    | none ↦ create_in cfg beacons
  ]

  unfoldable pub load_registry : Config → M (List BeaconMetadata)
  load_registry cfg h =
      let go = query_loop 4 2 cfg.registry_alias >>= resume_or_create cfg in
      if is_empty cfg.registry_alias then (err registry_required, h) else go h
