-- ===== src/Kms/Blob.antt =====
-- plugins/pkg/plugin/kms/blob.go. encoding/json is an argument where it writes and reads the text of an
-- object; which members a blob is written as, by its tags, and what reading a member does to it, is
-- written out.
pub mod RoundTrip
use orbitport.Base.{
  ℕ, ◌+◌, Bool, true, false, not, List, [], ◌∷◌, ◌++◌, Option, none, some, ltb, leb, ◌==◌, ◌||◌,
  ◌&&◌, if◌then◌else◌, map, ◌^◌,
}
use orbitport.Base.Int.{ℤ, pos, negsuc}
use orbitport.Base.Optional.{◌>>=◌}
use orbitport.Base.Result.{Result, ok, err}
use orbitport.Text.{Text, is_empty, lit, text_eq}
use orbitport.Base64
use orbitport.Base64.Codec.{decode, std_encoding}
use orbitport.Kms.Spec.{transit}

pub record CiphertextBlob : Type 0 where
  pub version : ℤ
  pub scheme : Text
  pub key_id : Text
  pub provider_key : Text
  pub transit_key : Text
  pub ciphertext : Text
  pub algorithm : Text

pub data BlobError : Type 0 where
  undecodable unsupported_version missing_fields : BlobError

-- the value of a member; `other` is a value of no other kind here, as a fraction, a list or an object
pub data Value : Type 0 where
  integer : ℤ → Value
  string : Text → Value
  null other : Value

abbrev pub Members : Type 0
Members = List (Text × Value)

-- `write` gives the bytes of an object with these members. `read` gives the members of the object that the
-- bytes are the JSON text of, in their order, and `none` where they are not.
pub record Json : Type 0 where
  pub write : Members → List ℕ
  pub read : List ℕ → Option Members

unfoldable pub blob_backend_key : CiphertextBlob → Text
blob_backend_key b = if not (is_empty b.provider_key) then b.provider_key else b.transit_key

unfoldable pub normalize_blob : CiphertextBlob → CiphertextBlob
normalize_blob b = record b {
  scheme = if is_empty b.scheme then transit else b.scheme;
  provider_key = if is_empty b.provider_key then b.transit_key else b.provider_key;
}

-- a member with the option `omitempty`
unfoldable pub omit_empty : Text → Text → Members
omit_empty tag t = if is_empty t then [] else (tag, string t) ∷ []

-- the members that a blob is written as
unfoldable pub members_of : CiphertextBlob → Members
members_of b =
    (lit "v", integer b.version)
    ∷ (omit_empty (lit "scheme") b.scheme
        ++ ((lit "key_id", string b.key_id)
            ∷ (omit_empty (lit "provider_key") b.provider_key
                ++ (omit_empty (lit "transit_key") b.transit_key
                    ++ ((lit "ciphertext", string b.ciphertext)
                        ∷ (lit "algorithm", string b.algorithm)
                        ∷ [])))))

-- The names of members are compared without case: the Kelvin sign and the long s count as k and s.
unfoldable pub fold_char : ℕ → ℕ
fold_char c =
    if leb b'A' c && leb c b'Z'
    then c + 32
    else if c == 0x212a
    then b'k'
    else if c == 0x17f
    then b's'
    else c

-- a member read into a string, and into an int; null leaves it as it is
unfoldable pub read_text : Value → Text → Option Text
read_text (string t) old = some t
read_text null old = some old
read_text (integer i) old = none
read_text other old = none

unfoldable pub read_int : Value → ℤ → Option ℤ
read_int (integer (pos n)) old = if ltb n (2 ^ 63) then some (pos n) else none
read_int (integer (negsuc n)) old = if ltb n (2 ^ 63) then some (negsuc n) else none
read_int null old = some old
read_int (string t) old = none
read_int other old = none

-- what one member does to the blob; one of another name does nothing
unfoldable pub read_member : Text × Value → CiphertextBlob → Option CiphertextBlob
read_member (key, v) b =
    let name = map fold_char key in
    if text_eq name (lit "v")
    then (read_int v b.version >>= λ i. some (record b { version = i }))
    else if text_eq name (lit "scheme")
    then (read_text v b.scheme >>= λ t. some (record b { scheme = t }))
    else if text_eq name (lit "key_id")
    then (read_text v b.key_id >>= λ t. some (record b { key_id = t }))
    else if text_eq name (lit "provider_key")
    then (read_text v b.provider_key >>= λ t. some (record b { provider_key = t }))
    else if text_eq name (lit "transit_key")
    then (read_text v b.transit_key >>= λ t. some (record b { transit_key = t }))
    else if text_eq name (lit "ciphertext")
    then (read_text v b.ciphertext >>= λ t. some (record b { ciphertext = t }))
    else if text_eq name (lit "algorithm")
    then (read_text v b.algorithm >>= λ t. some (record b { algorithm = t }))
    else some b

unfoldable pub read_members : Members → CiphertextBlob → Option CiphertextBlob
read_members [] b = some b
read_members (m ∷ ms) b = read_member m b >>= read_members ms

abbrev pub zero_blob : CiphertextBlob
zero_blob = record {
  version = pos 0;
  scheme = [];
  key_id = [];
  provider_key = [];
  transit_key = [];
  ciphertext = [];
  algorithm = [];
}

abbrev pub new_blob : Text → Text → Text → Text → Text → CiphertextBlob
new_blob scheme key_id provider_key ciphertext algorithm = record {
  version = pos 1;
  scheme = scheme;
  key_id = key_id;
  provider_key = provider_key;
  transit_key = [];
  ciphertext = ciphertext;
  algorithm = algorithm;
}

-- The writing of numbers and strings does not fail.
unfoldable pub encode_ciphertext_blob : Json → Text → Text → Text → Text → Text → Text
encode_ciphertext_blob json scheme key_id provider_key ciphertext algorithm =
    Base64.encode
      (json.write (members_of (new_blob scheme key_id provider_key ciphertext algorithm)))

-- `blob.Version == 1`
unfoldable pub is_version_1 : ℤ → Bool
is_version_1 (pos v) = v == 1
is_version_1 (negsuc v) = false

-- the decoding and the reading of the object
unfoldable pub parse_blob : Json → Text → Option CiphertextBlob
parse_blob json encoded = do
  raw ← decode std_encoding encoded
  members ← json.read raw
  read_members members zero_blob

-- the checks behind them
unfoldable pub check_blob : Option CiphertextBlob → Result BlobError CiphertextBlob
check_blob none = err undecodable
check_blob (some raw) =
    let blob = normalize_blob raw in
    if not (is_version_1 raw.version)
    then err unsupported_version
    else if is_empty blob.key_id
        || is_empty (blob_backend_key blob)
        || is_empty blob.ciphertext
        || is_empty blob.algorithm
    then err missing_fields
    else ok blob

unfoldable pub decode_ciphertext_blob : Json → Text → Result BlobError CiphertextBlob
decode_ciphertext_blob json encoded = check_blob (parse_blob json encoded)
