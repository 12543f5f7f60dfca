-- ===== src/Pat/Tests.antt =====
-- An issuer over OpenBao with one version of its key, and a plugin that validates its tokens.
use mathlib.Core.List.{Memᴰ}
use orbitport.Base.All.{All}
use orbitport.Base.{
  ℕ, Bool, ltb, ◌&&◌, ◌<◌, subst, ◌+◌, ◌≡◌, refl, true, List, [], ◌∷◌, ◌++◌, none, some, arith, ◌↔◌,
  length, replicate,
}
use orbitport.Base.Int.{ℤ, pos}
use orbitport.Base.Result.{Result, ok}
use orbitport.Text.{Text, lit, text_eq, cut_at}
use orbitport.Text.Dict.{lookup}
use orbitport.Text.Number.{itoa, atoi, digits, read_number, read_digits}
use orbitport.Base64.Codec.{
  encode_raw, decode, decode_quanta, drop_breaks, value?, one_byte, two_bytes, three_bytes,
  symbol_in,
}
use orbitport.Pat.Types.{Claims, PublicKey, on_curve, big_endian}
use orbitport.Pat.Cache.{
  parse_jwks, Keys, World, rpc_failed, JwksCache, new_jwks_cache, tick, key, is_stale, key_in,
  find_key, read_clock,
}
use orbitport.Pat.Cache.Fetched.{Monotone, Keeps}
use orbitport.Pat.Transit.{
  BaoCall, read, sign, KeyData, Bao, p256, read_key, key_info_of, collect_versions, set_version,
  jws_alg, sign_with, strip_vault_envelope, first_decoded, check_signature, seal, mint_with,
  mint_from, mint, signing_string, sign_request, jwks, key_set_of, key_set_with, sort_versions,
  insert_version, jwks_of, jwk_of, parse_ec_public_key_pem, KeyInfo,
}
use orbitport.Pat.Issuer.{
  IssueTokenRequest, IssuerConfig, transit_signer, is_after, is_refused, claims_of, sign_result,
  issue_token,
}
use orbitport.Pat.Issuer.Issuing
use orbitport.Pat.Issuer.Issuing.{issue_token-Ends}
use orbitport.Pat.Auth.{Jwt, Plugin, validate_token}
use orbitport.Pat.Auth.Accepting
use orbitport.Pat.Auth.Accepting.{validate_token-Ends}
use orbitport.Pat.Service.{ValidatedClaims, Auth0Error, validate_service_token}
use orbitport.Pat.Service.Authorizing.{Authorized, validate_service_token_iff}
use orbitport.Pat.KeySet.{IsPoint, parse_jwks-jwks}
use orbitport.Pat.Publisher.{Issuer, new_publisher, handle_jwks}
use orbitport.Pat.Publisher.Serving
use orbitport.Pat.Publisher.Serving.{Serves, handle_jwks-Serves}
use orbitport.Pat.RoundTrip.{Documented, validate_token-issue_token}

-- the generator of the curve
abbrev generator : PublicKey
generator = record {
  x =
      0x6b ∷ 0x17 ∷ 0xd1 ∷ 0xf2 ∷ 0xe1 ∷ 0x2c ∷ 0x42 ∷ 0x47 ∷ 0xf8 ∷ 0xbc ∷ 0xe6 ∷ 0xe5 ∷ 0x63
      ∷ 0xa4 ∷ 0x40 ∷ 0xf2 ∷ 0x77 ∷ 0x03 ∷ 0x7d ∷ 0x81 ∷ 0x2d ∷ 0xeb ∷ 0x33 ∷ 0xa0 ∷ 0xf4 ∷ 0xa1
      ∷ 0x39 ∷ 0x45 ∷ 0xd8 ∷ 0x98 ∷ 0xc2 ∷ 0x96 ∷ [];
  y =
      0x4f ∷ 0xe3 ∷ 0x42 ∷ 0xe2 ∷ 0xfe ∷ 0x1a ∷ 0x7f ∷ 0x9b ∷ 0x8e ∷ 0xe7 ∷ 0xeb ∷ 0x4a ∷ 0x7c
      ∷ 0x0f ∷ 0x9e ∷ 0x16 ∷ 0x2b ∷ 0xce ∷ 0x33 ∷ 0x57 ∷ 0x6b ∷ 0x31 ∷ 0x5e ∷ 0xce ∷ 0xcb ∷ 0xb6
      ∷ 0x40 ∷ 0x68 ∷ 0x37 ∷ 0xbf ∷ 0x51 ∷ 0xf5 ∷ [];
}

generator_on_curve : on_curve (big_endian 0 generator.x) (big_endian 0 generator.y) ≡ true
unfolding on_curve big_endian
generator_on_curve = refl

abbrev key_data : KeyData
key_data = record {
  key_type = lit "ecdsa-p256";
  latest_version = pos 1;
  keys = some ((lit "1", lit "PEM") ∷ []);
}

-- a signature of 64 zero bytes
abbrev envelope : Text
envelope = lit "vault:v1:" ++ replicate 86 b'A'

abbrev bao : Bao
bao = record {
  read_reply = λ h. some key_data;
  sign_reply = λ h. some envelope;
  header_json = λ header. lit "{}";
  claims_json = λ claims. lit "{1}";
  read_pem = λ pem. p256 generator;
}

abbrev config : IssuerConfig
config = record {
  issuer = lit "iss";
  audience = lit "aud";
  ceiling = λ time. time + 10_000_000_000_000;
}

abbrev request : IssueTokenRequest
request = record { jti = lit "j"; subject = lit "alice"; kms_tenant = []; expires_at = pos 1000 }

abbrev claims : Claims
claims = record {
  iss = some (lit "iss");
  aud = lit "aud" ∷ [];
  sub = some (lit "alice");
  jti = some (lit "j");
  kms_tenant = none;
  iat = some (pos 5);
  exp = some (pos 1000);
}

abbrev jwt : Jwt
jwt = record {
  parse = λ opts token. some (record { kid = some (lit "1"); finish = λ k time. ok claims });
  iss_of = λ json. some (lit "iss");
}

abbrev plugin : Plugin
plugin = record {
  pat_iss = lit "iss";
  pat_audience = lit "aud";
  pat_keys = true;
  service_client_ids = lit "dash" ∷ [];
}

-- the clock counts the calls
abbrev world : World
world = record { jwks_reply = λ h. rpc_failed; clock = λ h. length h }

world-Monotone : Monotone world
world-Monotone = record { step = λ c h. omega arith }

new_jwks_cache-Keeps : Keeps world 0 new_jwks_cache
unfolding new_jwks_cache
new_jwks_cache-Keeps = record { backed = λ keys e. cc; from = omega arith }

validate_token-Ends_example :
    Accepting.Ends jwt world plugin
      (lit "x.y.z")
      0
      (validate_token jwt world plugin (lit "x.y.z") new_jwks_cache)
validate_token-Ends_example =
    validate_token-Ends jwt world plugin (lit "x.y.z") 0 world-Monotone new_jwks_cache
      new_jwks_cache-Keeps

issue_token-Ends_example :
    Issuing.Ends bao config 5_000_000_000 request []
      (issue_token (transit_signer bao) config 5_000_000_000 request [])
issue_token-Ends_example = issue_token-Ends bao config 5_000_000_000 request []

abbrev validator : Text → Result Auth0Error ValidatedClaims
validator token = ok (record {
  expiry = pos 9;
  subject = lit "dash@clients";
  custom_claims = some (record { scope = lit "mint read"; grant_type = lit "client-credentials" });
})

validate_service_token_iff_example :
    (validate_service_token validator plugin (lit "t") (lit "mint" ∷ []) ≡ ok (lit "dash"))
    ↔ Authorized validator plugin (lit "t") (lit "mint" ∷ []) (lit "dash")
validate_service_token_iff_example =
    validate_service_token_iff validator plugin (lit "t") (lit "mint" ∷ []) (lit "dash")

abbrev token : Text
token = encode_raw (lit "{}") ++ b'.' ∷ encode_raw (lit "{1}") ++ b'.' ∷ replicate 86 b'A'

abbrev minting_calls : List BaoCall
minting_calls =
    sign (
      sign_request bao
        (signing_string bao (lit "ES256")
          (record {
            key_type = lit "ecdsa-p256";
            latest_version = pos 1;
            public_keys = (pos 1, lit "PEM") ∷ [];
          })
          claims)
        (record {
          key_type = lit "ecdsa-p256";
          latest_version = pos 1;
          public_keys = (pos 1, lit "PEM") ∷ [];
        }))
    ∷ read
    ∷ []

issued :
    issue_token (transit_signer bao) config 5_000_000_000 request [] ≡ (ok token, minting_calls)
unfolding issue_token is_refused is_after claims_of sign_result mint mint_from mint_with seal
    read_key key_info_of collect_versions set_version atoi read_number read_digits jws_alg text_eq
    sign_with strip_vault_envelope cut_at first_decoded decode decode_quanta drop_breaks value?
    three_bytes two_bytes one_byte check_signature encode_raw symbol_in signing_string
issued = refl

documented :
    Documented bao jwt
      (λ k signing bytes. true)
      generator
      (pos 1)
      (claims_of config request 5_000_000_000)
unfolding claims_of itoa digits
documented = record {
  claims_bytes = (omega arith, (omega arith, (omega arith, tt)));
  reads_iss = refl;
  parses = λ opts sig bytes method decoded. (
    record { kid = some (lit "1"); finish = λ k time. ok claims },
    refl,
    refl,
    λ time verified fits. refl,
  );
  signs = λ h req signing envelope sig bytes version input signed stripped decoded. refl;
}

abbrev cache : JwksCache
cache = record { keys = some ((lit "1", generator) ∷ []); fetched_at = 0; calls = [] }

found : key world (itoa (pos 1)) cache ≡ (ok generator, record cache { calls = read_clock ∷ [] })
unfolding key is_stale key_in find_key lookup itoa digits tick text_eq
found = refl

validate_token-issue_token_example : validate_token jwt world plugin token cache ≡ (
  ok (record { client_id = lit "alice"; jti = lit "j"; kms_tenant = [] }),
  tick world (record cache { calls = read_clock ∷ [] }),
)
unfolding tick
validate_token-issue_token_example =
    validate_token-issue_token bao jwt (λ k signing bytes. true) world plugin config request
      5_000_000_000 1000 [] minting_calls token key_data generator cache
      (record cache { calls = read_clock ∷ [] }) refl refl refl documented refl issued found refl
      (omega arith)

abbrev all_small : List ℕ → Bool
all_small [] = true
all_small (b ∷ bs) = ltb b 256 && all_small bs

all_bytes : (bs : List ℕ) → all_small bs ≡ true → All (λ b. b < 256) bs
all_bytes [] h = tt
all_bytes (b ∷ bs) h = (ground arith, all_bytes bs (ground arith))

generator-IsPoint : IsPoint generator
generator-IsPoint = record {
  x_bytes = all_bytes generator.x refl;
  y_bytes = all_bytes generator.y refl;
  x_size = refl;
  y_size = refl;
  curve = generator_on_curve;
}

bao-IsPoint : (pem : Text) (k : PublicKey) → bao.read_pem pem ≡ p256 k → IsPoint k
bao-IsPoint pem k e = let same : generator ≡ k = cc in subst IsPoint same generator-IsPoint

published : jwks bao [] ≡ (ok (jwk_of (lit "ES256") (pos 1) generator ∷ []), read ∷ [])
unfolding jwks key_set_of key_set_with read_key key_info_of collect_versions set_version atoi
    read_number read_digits jws_alg text_eq sort_versions insert_version jwks_of
    parse_ec_public_key_pem
published = refl

parse_jwks-jwks_example :
    (info : KeyInfo) × (keys : Keys) × (read_key bao [] ≡ (ok info, read ∷ []))
    × (parse_jwks (jwk_of (lit "ES256") (pos 1) generator ∷ []) ≡ ok keys)
    × ((v : ℤ) (pem : Text)
        → Memᴰ (v, pem) info.public_keys
        → (k : PublicKey) × (bao.read_pem pem ≡ p256 k) × (lookup (itoa v) keys ≡ some k))
parse_jwks-jwks_example =
    parse_jwks-jwks bao bao-IsPoint [] (read ∷ []) (jwk_of (lit "ES256") (pos 1) generator ∷ [])
      published

abbrev publisher_world : Issuer
publisher_world = record { jwks_json = λ h. some (lit "{}"); clock = λ h. length h }

new_publisher-Keeps : Serving.Keeps publisher_world 100 0 new_publisher
unfolding new_publisher
new_publisher-Keeps = record { answered = λ n. absurd (n refl); from = omega arith }

handle_jwks-Serves_example :
    Serves publisher_world 100 0 (handle_jwks publisher_world 100 new_publisher)
handle_jwks-Serves_example =
    handle_jwks-Serves publisher_world 100 0 (λ c h. omega arith) new_publisher new_publisher-Keeps
