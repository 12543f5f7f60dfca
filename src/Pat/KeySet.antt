-- ===== src/Pat/KeySet.antt =====
-- From the issuer to the cache: the keys that were published are the keys that are found.
use mathlib.Core.List.{Memᴰ}
use orbitport.Base.{
  ◌<◌, ◌≡◌, ◌≢◌, refl, sym, ap, ◌∙◌, subst, true, false, List, [], ◌∷◌, ◌++◌, some, arith,
  Bool-cases, inl, inr, Option-cases, length, take, drop, length-append, take-append, drop-append,
}
use orbitport.Base.Int.{ℤ}
use orbitport.Base.All.{All, All-map}
use orbitport.Base.Traced.{>>=-ok, lift-ok, lift}
use orbitport.Base.Result.{Result, ok, err, Result-cases}
use orbitport.Text.{Text, is_empty, text_eq}
use orbitport.Text.Number.{itoa, itoa-injective, is_empty-itoa}
use orbitport.Text.Dict.{lookup, put, lookup-put_same, lookup-put_ne}
use orbitport.Base64.RoundTrip.{decode-encode_raw}
use orbitport.Pat.Types.{Jwk, PublicKey, big_endian, on_curve, parse_uncompressed}
use orbitport.Pat.Cache.{Keys, parse_jwk, collect_keys, parse_jwks}
use orbitport.Pat.Issuer.Minting.{read_key-ok}
use orbitport.Pat.Versions.{
  Versions, Distinct, collect_versions-Distinct, sort_versions-Distinct, Memᴰ-sort_versions,
}
use orbitport.Pat.Transit.{
  Bao, PemKey, p256, no_block, unparsable, not_ec, other_curve, SignError, parse_ec_public_key_pem,
  jwk_of, jwks_of, jwks, key_set_of, key_set_with, key_info_of, collect_versions, KeyData, read_key,
  read, BaoCall, KeyInfo, jws_alg, sort_versions,
}

-- The coordinates are those of a point of the curve, in 32 bytes each.
pub record IsPoint (k : PublicKey) : Type 0 where
  pub x_bytes : All (λ b. b < 256) k.x
  pub y_bytes : All (λ b. b < 256) k.y
  pub x_size : length k.x ≡ 32
  pub y_size : length k.y ≡ 32
  pub curve : on_curve (big_endian 0 k.x) (big_endian 0 k.y) ≡ true

parsed_p256 : (q : PemKey) (k : PublicKey) → parse_ec_public_key_pem q ≡ ok k → q ≡ p256 k
unfolding parse_ec_public_key_pem
parsed_p256 (p256 j) k e = cc
parsed_p256 no_block k e = cc
parsed_p256 unparsable k e = cc
parsed_p256 not_ec k e = cc
parsed_p256 other_curve k e = cc

IsPoint-front : (k : PublicKey) → IsPoint k → take 32 (k.x ++ k.y) ≡ k.x
IsPoint-front k p = ap (λ n. take n (k.x ++ k.y)) (sym p.x_size) ∙ take-append k.x k.y

IsPoint-back : (k : PublicKey) → IsPoint k → drop 32 (k.x ++ k.y) ≡ k.y
IsPoint-back k p = ap (λ n. drop n (k.x ++ k.y)) (sym p.x_size) ∙ drop-append k.x k.y

parse_uncompressed-IsPoint :
    (k : PublicKey) → IsPoint k → parse_uncompressed (4 ∷ k.x ++ k.y) ≡ some k
unfolding parse_uncompressed
parse_uncompressed-IsPoint k p =
    let size : length (k.x ++ k.y) ≡ 64 =
      omega (arith, length-append k.x k.y, p.x_size, p.y_size) in
    rw (size, IsPoint-front k p, IsPoint-back k p, p.curve) refl

parse_jwk-jwk_of :
    (alg : Text) (v : ℤ) (k : PublicKey) → IsPoint k → parse_jwk (jwk_of alg v k) ≡ ok (some k)
unfolding parse_jwk jwk_of text_eq
parse_jwk-jwk_of alg v k p =
    rw
      (
        is_empty-itoa v,
        IsPoint-front k p,
        decode-encode_raw k.x p.x_bytes,
        IsPoint-back k p,
        decode-encode_raw k.y p.y_bytes,
        parse_uncompressed-IsPoint k p,
      )
      refl

versions_in : Result SignError KeyInfo → Versions
versions_in (ok info) = info.public_keys
versions_in (err e) = []

key_info_of-Distinct :
    (key : KeyData) (info : KeyInfo)
    → key_info_of key ≡ ok info
    → Distinct info.public_keys × (is_empty info.public_keys ≡ false)
unfolding key_info_of versions_in
key_info_of-Distinct key info = elim (Option-cases key.keys) [
  | inl none_there ↦ rw (none_there, key_info_of) (λ e. cc)
  | inr (raw, e) ↦ elim (Bool-cases (is_empty (collect_versions raw []))) [
    | inl empty ↦ rw (e, empty, key_info_of) (λ e. cc)
    | inr full ↦
        rw (e, full, key_info_of)
          (λ e.
            let same : collect_versions raw [] ≡ info.public_keys = ap versions_in e in
            (
              subst Distinct same (collect_versions-Distinct raw [] tt),
              subst (λ m. is_empty m ≡ false) same full,
            ))
  ]
]

module _ (bao : Bao) where
  -- the key of an entry of the key
  abbrev HasKey : ℤ × Text → PublicKey → Type 0
  HasKey e k = bao.read_pem (e.1) ≡ p256 k

  -- the keys that are found for the entries, and the others as before
  record Collected (versions : Versions) (before after : Keys) : Type 0 where
    found :
        (e : ℤ × Text)
        → Memᴰ e versions
        → (k : PublicKey) × HasKey e k × (lookup (itoa (e.0)) after ≡ some k)
    others :
        (name : Text)
        → All (λ f. itoa (f.0) ≢ name) versions
        → lookup name after ≡ lookup name before

  jwks_of-cons :
      (alg : Text) (v : ℤ) (pem : Text) (versions : Versions) (set : List Jwk)
      → jwks_of bao alg ((v, pem) ∷ versions) ≡ ok set
      → (k : PublicKey) × (rest : List Jwk) × (bao.read_pem pem ≡ p256 k)
        × (jwks_of bao alg versions ≡ ok rest)
        × (set ≡ jwk_of alg v k ∷ rest)
  unfolding jwks_of
  jwks_of-cons alg v pem versions set =
      elim (Result-cases (parse_ec_public_key_pem (bao.read_pem pem))) [
        | inr (x, e) ↦ rw (e, jwks_of) (λ h. cc)
        | inl (k, e) ↦ elim (Result-cases (jwks_of bao alg versions)) [
          | inr (x, f) ↦ rw (e, f, jwks_of) (λ h. cc)
          | inl (rest, f) ↦
              rw (e, f, jwks_of) (λ h. (k, rest, parsed_p256 (bao.read_pem pem) k e, refl, cc))
        ]
      ]

  collect_keys-jwk_of :
      (alg : Text) (v : ℤ) (k : PublicKey) (rest : List Jwk) (before : Keys)
      → IsPoint k
      → collect_keys (jwk_of alg v k ∷ rest) before ≡ collect_keys rest (put (itoa v) k before)
  unfolding collect_keys
  collect_keys-jwk_of alg v k rest before p =
      rw (parse_jwk-jwk_of alg v k p, collect_keys) (unfold jwk_of in refl)

  some_key :
      (versions : Versions) (keys : Keys)
      → is_empty versions ≡ false
      → ((f : ℤ × Text)
          → Memᴰ f versions
          → (k : PublicKey) × HasKey f k × (lookup (itoa (f.0)) keys ≡ some k))
      → is_empty keys ≡ false
  unfolding lookup
  some_key [] keys e f = cc
  some_key (g ∷ m) [] e f = let (k, has, found) = f g (Memᴰ.head refl) in cc
  some_key (g ∷ m) (x ∷ keys) e f = refl

  parsed-set :
      (set : List Jwk) (keys : Keys)
      → collect_keys set [] ≡ ok keys
      → is_empty keys ≡ false
      → parse_jwks set ≡ ok keys
  unfolding parse_jwks
  parsed-set set keys e full = rw (e, full, parse_jwks) refl

  module _ (points : (pem : Text) (k : PublicKey) → bao.read_pem pem ≡ p256 k → IsPoint k) where
    collect_keys-Collected :
        (alg : Text) (versions : Versions) (set : List Jwk) (before : Keys)
        → Distinct versions
        → jwks_of bao alg versions ≡ ok set
        → (after : Keys) × (collect_keys set before ≡ ok after) × Collected versions before after
    unfolding jwks_of collect_keys
    collect_keys-Collected alg [] set before d e =
        let empty : [] ≡ set = cc in
        (
          before,
          ap (λ s. collect_keys s before) (sym empty),
          record { found = λ e i. elim i [ ]; others = λ name h. refl },
        )
    collect_keys-Collected alg ((v, pem) ∷ versions) set before (d, ds) e =
        let (k, rest, has_key, e', set_is) = jwks_of-cons alg v pem versions set e in
        let (after, collected, c) =
          collect_keys-Collected alg versions rest (put (itoa v) k before) ds e' in
        let other : All (λ f. itoa (f.0) ≢ itoa v) versions =
          All-map (λ f. f.0 ≢ v) (λ f. itoa (f.0) ≢ itoa v) (λ f n q. n (itoa-injective (f.0) v q))
            versions d in
        let mine : lookup (itoa v) after ≡ some k =
          c.others (itoa v) other ∙ lookup-put_same (itoa v) k before in
        (
          after,
          ap (λ s. collect_keys s before) set_is
              ∙ collect_keys-jwk_of alg v k rest before (points pem k has_key)
              ∙ collected,
          record {
            found = λ f i. elim i [
              | Memᴰ.head q ↦ (
                k,
                ap (λ (g : ℤ × Text). bao.read_pem (g.1)) q ∙ has_key,
                ap (λ (g : ℤ × Text). lookup (itoa (g.0)) after) q ∙ mine,
              )
              | Memᴰ.tail j ↦ c.found f j
            ];
            others = λ name h. c.others name (h.1) ∙ lookup-put_ne (itoa v) name k before (h.0);
          },
        )

    -- What is published is found: from a key that was read, the set parses at the other side, and
    -- there the kid of each version leads to its public key.
    pub parse_jwks-jwks :
        (h h' : List BaoCall) (set : List Jwk)
        → jwks bao h ≡ (ok set, h')
        → (info : KeyInfo) × (keys : Keys) × (read_key bao h ≡ (ok info, read ∷ h))
          × (parse_jwks set ≡ ok keys)
          × ((v : ℤ) (pem : Text)
              → Memᴰ (v, pem) info.public_keys
              → (k : PublicKey) × (bao.read_pem pem ≡ p256 k) × (lookup (itoa v) keys ≡ some k))
    unfolding jwks key_set_of key_set_with
    parse_jwks-jwks h h' set e =
        let (info, k, e1, rest1) = >>=-ok (read_key bao) (key_set_of bao) h h' e in
        let (alg, k2, e2, rest2) =
          >>=-ok (lift (jws_alg info.key_type)) (key_set_with bao info) k h' rest1 in
        let (published, h'_is) = lift-ok (jwks_of bao alg (sort_versions info.public_keys)) rest2 in
        let (key, got, has_info, k_is) = read_key-ok bao h k info e1 in
        let (distinct, some_version) = key_info_of-Distinct key info has_info in
        let (keys, collected, c) =
          collect_keys-Collected alg (sort_versions info.public_keys) set []
            (sort_versions-Distinct info.public_keys distinct) published in
        let all_found : (f : ℤ × Text)
            → Memᴰ f info.public_keys
            → (q : PublicKey) × HasKey f q × (lookup (itoa (f.0)) keys ≡ some q) =
          λ f i. c.found f (Memᴰ-sort_versions f info.public_keys i) in
        (
          info,
          keys,
          e1 ∙ ap (λ l. (ok info, l)) k_is,
          parsed-set set keys collected (some_key info.public_keys keys some_version all_found),
          λ v pem i. all_found (v, pem) i,
        )
