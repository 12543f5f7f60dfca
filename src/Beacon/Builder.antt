-- ===== src/Beacon/Builder.antt =====
-- plugins/pkg/plugin/beacon/builder.go and `loadLastBeaconBlock` of plugin.go: one execution of a
-- beacon. The values are loaded beside the last block; they stand here before it, which the calls to the
-- other plugins do not tell apart.
pub mod Publishing
pub mod Chain
use orbitport.Base.{
  ℕ, ◌+◌, ◌%◌, ◌^◌, Bool, true, false, not, List, [], ◌∷◌, Option, none, some, ◌==◌, ltb,
  if◌then◌else◌, ◌&&◌,
}
use orbitport.Base.Result.{Result, ok, err}
use orbitport.Base.Traced.{Traced, ◌>>=◌, ◌>>◌, return, lift}
use orbitport.Text.{Text, is_empty}
use orbitport.MasterSeed.{derive_bulk_from_seed_hex}
use orbitport.Beacon.Types.{BeaconMetadata, BeaconPayload, Block}
use orbitport.Beacon.Ipfs.{
  Content, block, Call, get, add, publish, trng, seeds, IpfsError, World, Head, TrngError, canceled,
  failed, BeaconError, get_failed, add_failed, publish_failed, not_a_block, no_values,
  nil_dereference, M, ask,
}

-- `batchSize`
unfoldable pub batch_of : BeaconMetadata → ℕ
batch_of meta = if meta.batch_size == 0 then 1 else meta.batch_size

-- `int(batchSize)`; a negative one counts as 0, which has no outputs as well.
unfoldable pub batch_int : BeaconMetadata → ℕ
batch_int meta = if ltb (batch_of meta) (2 ^ 63) then batch_of meta else 0

-- the values of a reply, where there are any
abbrev pub values_of : {E : Type 0} → Result E (List Text) → List Text
values_of (ok vs) = vs
values_of (err e) = []

-- `ctrngSeed`, empty where there is none
unfoldable pub seed_of : Result TrngError (List Text) → Text
seed_of (ok (v ∷ vs)) = v
seed_of (ok []) = []
seed_of (err e) = []

unfoldable pub is_canceled : Result TrngError (List Text) → Bool
is_canceled (err canceled) = true
is_canceled (err failed) = false
is_canceled (ok vs) = false

module _ (w : World) where
  -- the values before they are delivered, and the calls made for them
  unfoldable pub fetch_ctrngs : BeaconMetadata → List Call → List Text × List Call
  fetch_ctrngs meta h =
      let asked = trng ∷ h in
      let reply = w.trng_reply asked in
      let pooled = seeds (batch_of meta % 2 ^ 32) ∷ asked in
      if is_canceled reply
      then ([], asked)
      else if is_empty (seed_of reply)
      then (values_of (w.seeds_reply pooled), pooled)
      else (values_of (derive_bulk_from_seed_hex (seed_of reply) (batch_int meta)), asked)

  -- `loadCtrngs`: what comes out of its channel, nothing where it is closed empty
  unfoldable pub load_ctrngs : BeaconMetadata → List Call → List Text × List Call
  load_ctrngs meta h =
      let r = fetch_ctrngs meta h in if not (is_empty r.0) && w.delivers r.1 then r else ([], r.1)

  -- `loadLastBeaconBlock`: the path of the last block, and its payload, which may be missing
  unfoldable pub load_last_beacon_block : Text → M (Text × Option BeaconPayload)
  load_last_beacon_block name = do
    head ← ask w.get_reply (get name) get_failed
    elim (head.as_block) [ none ↦ lift (err not_a_block) | some b ↦ return (head.path, b.payload) ]

  -- what is put behind the last block
  unfoldable pub append_block : BeaconMetadata → List Text → Text → BeaconPayload → M BeaconPayload
  append_block meta values last_cid last h =
      let payload : BeaconPayload = record {
        sequence = (last.sequence + 1) % 2 ^ 64;
        timestamp = w.now h;
        ctrng = values;
      } in
      let next = block (record { link = last_cid; payload = some payload; metadata = none }) in
      (ask w.add_reply (add next) add_failed >>= λ cid.
      ask w.publish_reply (publish cid meta.name) publish_failed >>= λ _. return payload)
        h

  unfoldable pub execute_with :
      BeaconMetadata → List Text → Text × Option BeaconPayload → M BeaconPayload
  execute_with meta values (last_cid, none) = lift (err nil_dereference)
  execute_with meta values (last_cid, some last) =
      if is_empty values then lift (err no_values) else append_block meta values last_cid last

  unfoldable pub execute_beacon : BeaconMetadata → M BeaconPayload
  execute_beacon meta h =
      let r = load_ctrngs meta h in (load_last_beacon_block meta.name >>= execute_with meta r.0) r.1
