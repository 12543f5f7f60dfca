-- ===== src/Beacon/Types.antt =====
-- plugins/pkg/plugin/beacon/types.go: beacons, and the blocks of their chains. JSON is outside.
use orbitport.Base.{ℕ, List, Option}
use orbitport.Base.Int.{ℤ}
use orbitport.Text.{Text}

-- `interval` is a `time.Duration`, in nanoseconds.
pub record BeaconMetadata : Type 0 where
  pub name : Text
  pub public_key : Text
  pub version : Text
  pub encoding : Text
  pub batch_size : ℕ
  pub message : Text
  pub interval : ℤ

-- `sequence` is a uint64, `timestamp` an int64 in seconds.
pub record BeaconPayload : Type 0 where
  pub sequence : ℕ
  pub timestamp : ℤ
  pub ctrng : List Text

pub record Block : Type 0 where
  pub link : Text
  pub payload : Option BeaconPayload
  pub metadata : Option BeaconMetadata
