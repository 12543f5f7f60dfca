-- ===== src/Pat/Transit.antt =====
-- plugins/pkg/plugin/patissuer/transit.go: tokens that OpenBao signs, and the set of its public keys.
-- OpenBao answers from the calls so far, newest first; an answer stands for what its JSON parses as.
use orbitport.Base.{
  ℕ, Bool, true, false, not, List, [], ◌∷◌, ◌++◌, Option, none, some, length, take, drop, leb, ◌==◌,
  if◌then◌else◌,
}
use orbitport.Base.Int.{ℤ, pos, negsuc}
use orbitport.Base.Result.{Result, ok, err}
use orbitport.Base.Traced.{Traced, ◌>>=◌, return, lift}
use orbitport.Text.{Text, text_eq, is_empty, lit, cut_at}
use orbitport.Text.Number.{itoa, atoi}
use orbitport.Base64
use orbitport.Base64.Codec.{
  Encoding, raw_url_encoding, url_encoding, raw_std_encoding, std_encoding, encode_raw, decode,
}
use orbitport.Pat.Types.{Claims, JwsHeader, Jwk, PublicKey, point_of}

pub record TransitSignRequest : Type 0 where
  pub input : Text
  pub prehashed : Bool
  pub marshaling_algorithm : Text
  pub key_version : ℤ

pub data BaoCall : Type 0 where
  read : BaoCall
  sign : TransitSignRequest → BaoCall

-- The data of a key; `keys` is missing where it is not an object of keys.
pub record KeyData : Type 0 where
  pub key_type : Text
  pub latest_version : ℤ
  pub keys : Option (List (Text × Text))

-- the PEM text of a key, as pem and x509 read it
pub data PemKey : Type 0 where
  no_block unparsable not_ec other_curve : PemKey
  p256 : PublicKey → PemKey

pub data SignError : Type 0 where
  key_read_failed versions_unparsable no_public_keys unsupported_key_type : SignError
  sign_failed bad_envelope not_base64 wrong_length bad_public_key : SignError

-- OpenBao behind its proxy, and the libraries for JSON and PEM. Every failure of `do` is `none`.
pub record Bao : Type 0 where
  pub read_reply : List BaoCall → Option KeyData
  pub sign_reply : List BaoCall → Option Text
  pub header_json : JwsHeader → List ℕ
  pub claims_json : Claims → List ℕ
  pub read_pem : Text → PemKey

abbrev pub M : Type 0 → Type 0
M A = Traced BaoCall SignError A

pub record KeyInfo : Type 0 where
  pub key_type : Text
  pub latest_version : ℤ
  pub public_keys : List (ℤ × Text)

unfoldable pub int_eq : ℤ → ℤ → Bool
int_eq (pos m) (pos n) = m == n
int_eq (negsuc m) (negsuc n) = m == n
int_eq (pos m) (negsuc n) = false
int_eq (negsuc m) (pos n) = false

-- `pubKeys[v] = pem`
unfoldable pub set_version : ℤ → Text → List (ℤ × Text) → List (ℤ × Text)
set_version v pem [] = (v, pem) ∷ []
set_version v pem ((w, q) ∷ m) = if int_eq w v then (v, pem) ∷ m else (w, q) ∷ set_version v pem m

-- The loop over the versions of a key, in the order that the range gives.
unfoldable pub collect_versions : List (Text × Text) → List (ℤ × Text) → List (ℤ × Text)
collect_versions [] found = found
collect_versions ((name, pem) ∷ keys) found = elim (atoi name) [
  | none ↦ collect_versions keys found
  | some v ↦ collect_versions keys (if is_empty pem then found else set_version v pem found)
]

-- `readKey` behind the request
unfoldable pub key_info_of : KeyData → Result SignError KeyInfo
key_info_of key = elim (key.keys) [
  | none ↦ err versions_unparsable
  | some raw ↦
      let found = collect_versions raw [] in
      if is_empty found
      then err no_public_keys
      else ok (record {
        key_type = key.key_type;
        latest_version = key.latest_version;
        public_keys = found;
      })
]

unfoldable pub jws_alg : Text → Result SignError Text
jws_alg key_type =
    if text_eq key_type (lit "ecdsa-p256") then ok (lit "ES256") else err unsupported_key_type

-- the first of the encodings that the signature is in
unfoldable pub first_decoded : List Encoding → Text → Option (List ℕ)
first_decoded [] raw = none
first_decoded (enc ∷ encs) raw = elim (decode enc raw) [
  | some bytes ↦ some bytes
  | none ↦ first_decoded encs raw
]

-- the encodings that a signature may be in
abbrev pub encodings : List Encoding
encodings = raw_url_encoding ∷ url_encoding ∷ raw_std_encoding ∷ std_encoding ∷ []

-- `stripVaultEnvelope`
unfoldable pub strip_vault_envelope : Text → Result SignError Text
strip_vault_envelope signature = elim (cut_at b':' signature) [
  | none ↦ err bad_envelope
  | some (vault, rest) ↦ elim (cut_at b':' rest) [
    | none ↦ err bad_envelope
    | some (version, raw) ↦
        if not (text_eq vault (lit "vault"))
        then err bad_envelope
        else elim (first_decoded encodings raw) [
          | none ↦ err not_base64
          | some bytes ↦ ok (encode_raw bytes)
        ]
  ]
]

-- the check of a signature's length, behind its decoding
unfoldable pub check_signature : Text → Result SignError (Unit {0})
check_signature sig = elim (decode raw_url_encoding sig) [
  | none ↦ err not_base64
  | some bytes ↦ if length bytes == 64 then ok tt else err wrong_length
]

-- `parseECPublicKeyPEM`
unfoldable pub parse_ec_public_key_pem : PemKey → Result SignError PublicKey
parse_ec_public_key_pem (p256 k) = ok k
parse_ec_public_key_pem no_block = err bad_public_key
parse_ec_public_key_pem unparsable = err bad_public_key
parse_ec_public_key_pem not_ec = err bad_public_key
parse_ec_public_key_pem other_curve = err bad_public_key

-- `sort.Ints`
unfoldable pub int_le : ℤ → ℤ → Bool
int_le (pos m) (pos n) = leb m n
int_le (negsuc m) (negsuc n) = leb n m
int_le (pos m) (negsuc n) = false
int_le (negsuc m) (pos n) = true

unfoldable pub insert_version : ℤ × Text → List (ℤ × Text) → List (ℤ × Text)
insert_version e [] = e ∷ []
insert_version e (f ∷ m) = if int_le (e.0) (f.0) then e ∷ f ∷ m else f ∷ insert_version e m

unfoldable pub sort_versions : List (ℤ × Text) → List (ℤ × Text)
sort_versions [] = []
sort_versions (e ∷ m) = insert_version e (sort_versions m)

-- The entry of one version in the set, with the two halves of the uncompressed point. A key that was parsed
-- from PEM is on its curve, so `PublicKey.Bytes` does not fail.
unfoldable pub jwk_of : Text → ℤ → PublicKey → Jwk
jwk_of alg v k = record {
  kty = lit "EC";
  crv = lit "P-256";
  usage = lit "sig";
  alg = alg;
  kid = itoa v;
  x = encode_raw (take 32 (drop 1 (point_of k)));
  y = encode_raw (drop 33 (point_of k));
}

module _ (bao : Bao) where
  unfoldable pub read_key : M KeyInfo
  read_key h = elim (bao.read_reply (read ∷ h)) [
    | none ↦ (err key_read_failed, read ∷ h)
    | some key ↦ (key_info_of key, read ∷ h)
  ]

  unfoldable pub signing_string : Text → KeyInfo → Claims → Text
  signing_string alg info claims =
      let header : JwsHeader = record {
        alg = alg;
        typ = lit "JWT";
        kid = itoa info.latest_version;
      } in
      encode_raw (bao.header_json header) ++ b'.' ∷ encode_raw (bao.claims_json claims)

  -- the request that pins the version which the header names
  unfoldable pub sign_request : Text → KeyInfo → TransitSignRequest
  sign_request signing info = record {
    input = Base64.encode signing;
    prehashed = false;
    marshaling_algorithm = lit "jws";
    key_version = info.latest_version;
  }

  unfoldable pub sign_with : TransitSignRequest → M Text
  sign_with req h = elim (bao.sign_reply (sign req ∷ h)) [
    | none ↦ (err sign_failed, sign req ∷ h)
    | some signature ↦ (strip_vault_envelope signature, sign req ∷ h)
  ]

  -- the checks of a signature, and the token
  unfoldable pub seal : Text → Text → M Text
  seal signing sig = lift (check_signature sig) >>= λ _. return (signing ++ b'.' ∷ sig)

  unfoldable pub mint_with : Claims → KeyInfo → Text → M Text
  mint_with claims info alg =
      let signing = signing_string alg info claims in
      sign_with (sign_request signing info) >>= seal signing

  unfoldable pub mint_from : Claims → KeyInfo → M Text
  mint_from claims info = lift (jws_alg info.key_type) >>= mint_with claims info

  -- `Mint`
  unfoldable pub mint : Claims → M Text
  mint claims = read_key >>= mint_from claims

  -- the loop of `JWKS` over the sorted versions
  unfoldable pub jwks_of : Text → List (ℤ × Text) → Result SignError (List Jwk)
  jwks_of alg [] = ok []
  jwks_of alg ((v, pem) ∷ versions) =
      let rest = jwks_of alg versions in
      elim (parse_ec_public_key_pem (bao.read_pem pem)) [
        | err e ↦ err e
        | ok k ↦ elim rest [ err e ↦ err e | ok keys ↦ ok (jwk_of alg v k ∷ keys) ]
      ]

  -- the set of the keys that were read
  unfoldable pub key_set_with : KeyInfo → Text → M (List Jwk)
  key_set_with info alg = lift (jwks_of alg (sort_versions info.public_keys))

  unfoldable pub key_set_of : KeyInfo → M (List Jwk)
  key_set_of info = lift (jws_alg info.key_type) >>= key_set_with info

  -- `JWKS`
  unfoldable pub jwks : M (List Jwk)
  jwks = read_key >>= key_set_of
