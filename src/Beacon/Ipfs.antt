-- ===== src/Beacon/Ipfs.antt =====
-- The IPFS plugin and the clock as the beacon plugin sees them: a call is put on a record of the calls,
-- newest first, and the environment answers from that record.
use orbitport.Base.{ℕ, List, ◌∷◌, Bool, Option}
use orbitport.Base.Int.{ℤ}
use orbitport.Base.Result.{Result, ok, err}
use orbitport.Base.Traced.{Traced}
use orbitport.Text.{Text}
use orbitport.Beacon.Types.{BeaconMetadata, Block}

-- what is added, before it becomes JSON
pub data Content : Type 0 where
  block : Block → Content
  registry : List BeaconMetadata → Content

pub data Call : Type 0 where
  key_info get : Text → Call
  add : Content → Call
  publish : Text → Text → Call
  wait : ℕ → Call
  trng : Call
  seeds : ℕ → Call

pub data IpfsError : Type 0 where
  not_found unavailable : IpfsError

-- What a name points to: the path of its head, and the head's JSON as a block and as a registry.
pub record Head : Type 0 where
  pub path : Text
  pub as_block : Option Block
  pub as_registry : Option (List BeaconMetadata)

pub data TrngError : Type 0 where
  canceled failed : TrngError

-- `key_info` answers with the IPNS name of a key. `fires` tells whether a timer fires before the
-- context is done, `now` is `time.Now().Unix()`, and `delivers` whether the loaded values reach the
-- execution before its context is done.
pub record World : Type 0 where
  pub key_info_reply : List Call → Result IpfsError (Option Text)
  pub get_reply : List Call → Result IpfsError Head
  pub add_reply : List Call → Result IpfsError Text
  pub publish_reply : List Call → Result IpfsError Text
  pub trng_reply : List Call → Result TrngError (List Text)
  pub seeds_reply : List Call → Result IpfsError (List Text)
  pub fires : List Call → Bool
  pub delivers : List Call → Bool
  pub now : List Call → ℤ

pub data BeaconError : Type 0 where
  registry_required registry_unavailable canceled get_failed key_info_failed : BeaconError
  add_failed publish_failed not_a_block not_a_registry no_values nil_dereference : BeaconError

abbrev pub M : Type 0 → Type 0
M A = Traced Call BeaconError A

-- one call, with its error as this one
abbrev pub ask : {E A : Type 0} → (List Call → Result E A) → Call → BeaconError → M A
ask reply c e h = (elim (reply (c ∷ h)) [ ok a ↦ ok a | err x ↦ err e ], c ∷ h)
