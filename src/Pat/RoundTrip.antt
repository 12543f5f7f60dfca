-- ===== src/Pat/RoundTrip.antt =====
-- From the issuer to the validation: a token that was issued is accepted.
use mathlib.Core.List.{Memᴰ}
use orbitport.Base.{
  ℕ, ◌+◌, ◌*◌, ◌<◌, ◌≡◌, ◌≢◌, refl, sym, ap, ◌∙◌, subst, Bool, true, false, List, [], ◌∷◌, ◌++◌,
  none, some, if◌then◌else◌, Bool-cases, inl, inr, Option-cases, append_assoc,
}
use orbitport.Base.Int.{ℤ, pos}
use orbitport.Base.All.{All, All-map}
use orbitport.Base.Result.{Result, ok, err}
use orbitport.Text.{Text, is_empty, lit, text_eq, cut_at}
use orbitport.Text.Equal.{text_eq_iff}
use orbitport.Text.Split.{split-part, split-last}
use orbitport.Text.Number.{itoa, is_empty-itoa}
use orbitport.Base64
use orbitport.Base64.Codec.{raw_url_encoding, encode_raw, decode}
use orbitport.Base64.RoundTrip.{Plain, encode_raw-Plain, decode-encode_raw}
use orbitport.Pat.Types.{Claims, JwsHeader, PublicKey}
use orbitport.Pat.Cache.{World, JwksCache, KeyError, tick, now, key}
use orbitport.Pat.Transit.{
  BaoCall, read, sign, TransitSignRequest, KeyData, KeyInfo, Bao, SignError, collect_versions,
  key_info_of, encodings, strip_vault_envelope, first_decoded, signing_string, sign_request,
}
use orbitport.Pat.Issuer.{
  IssueTokenRequest, IssuerConfig, IssueError, transit_signer, claims_of, issue_token, second,
}
use orbitport.Pat.Issuer.Minting.{Minted}
use orbitport.Pat.Issuer.Issuing.{
  Allowed, ne-is_empty, Ends, refused, not_minted, issued, issue_token-Ends,
}
use orbitport.Pat.Auth.{
  Jwt, Keyed, Options, Status, Plugin, TokenValidationResponse, text_of, iss_of_parts,
  unverified_issuer, key_status, respond, finish_with, options_of, keyfunc, validate_pat,
  validate_token,
}

-- The claims fit the options at a time: the issuer and the audience are theirs, and the token has not
-- expired, with a minute of leeway.
pub record Fits (opts : Options) (claims : Claims) (time : ℕ) : Type 0 where
  pub iss : claims.iss ≡ some opts.issuer
  pub aud : Memᴰ opts.audience claims.aud
  pub expires_at : ℕ
  pub exp : claims.exp ≡ some (pos expires_at)
  pub alive : time < expires_at * second + 60 * second

-- the header of a token that OpenBao signs with a version
abbrev pub header_of : ℤ → JwsHeader
header_of v = record { alg = lit "ES256"; typ = lit "JWT"; kid = itoa v }

-- What the libraries and OpenBao are documented to do with these claims and this version of the key:
-- their JSON is bytes from which the iss claim is read back; a token of three parts is parsed as they
-- were encoded, and accepted with a key that verifies it when its claims fit; and OpenBao signs with
-- the version that is asked for.
pub record Documented (bao : Bao) (jwt : Jwt) (verify : PublicKey → Text → List ℕ → Bool)
    (k : PublicKey) (v : ℤ) (claims : Claims) : Type 0 where
  pub claims_bytes : All (λ b. b < 256) (bao.claims_json claims)
  pub reads_iss : jwt.iss_of (bao.claims_json claims) ≡ claims.iss
  pub parses :
      (opts : Options) (sig : Text) (bytes : List ℕ)
      → opts.valid_method ≡ lit "ES256"
      → decode raw_url_encoding sig ≡ some bytes
      → let signing =
          encode_raw (bao.header_json (header_of v))
          ++ b'.' ∷ encode_raw (bao.claims_json claims) in
        (keyed : Keyed) × (jwt.parse opts (signing ++ b'.' ∷ sig) ≡ some keyed)
        × (keyed.kid ≡ some (itoa v))
        × ((time : ℕ)
            → verify k signing bytes ≡ true
            → Fits opts claims time
            → keyed.finish k time ≡ ok claims)
  pub signs :
      (h : List BaoCall) (req : TransitSignRequest) (signing envelope sig : Text) (bytes : List ℕ)
      → req.key_version ≡ v
      → req.input ≡ Base64.encode signing
      → bao.sign_reply (sign req ∷ h) ≡ some envelope
      → strip_vault_envelope envelope ≡ ok sig
      → decode raw_url_encoding sig ≡ some bytes
      → verify k signing bytes ≡ true

undotted : (bs : List ℕ) → All (λ c. c ≢ b'.') (encode_raw bs)
undotted bs = All-map Plain (λ c. c ≢ b'.') (λ c p. p.2) (encode_raw bs) (encode_raw-Plain bs)

stripped_encoded :
    (envelope sig : Text)
    → strip_vault_envelope envelope ≡ ok sig
    → (bytes : List ℕ) × (sig ≡ encode_raw bytes)
unfolding strip_vault_envelope
stripped_encoded envelope sig = elim (Option-cases (cut_at b':' envelope)) [
  | inl uncut ↦ rw (uncut, strip_vault_envelope) (λ e. cc)
  | inr ((vault, rest), cut) ↦ elim (Option-cases (cut_at b':' rest)) [
    | inl uncut ↦ rw (cut, uncut, strip_vault_envelope) (λ e. cc)
    | inr ((version, raw), cut2) ↦ elim (Bool-cases (text_eq vault (lit "vault"))) [
      | inr other ↦ rw (cut, cut2, other, strip_vault_envelope) (λ e. cc)
      | inl is_vault ↦ elim (Option-cases (first_decoded encodings raw)) [
        | inl bad ↦ rw (cut, cut2, is_vault, bad, strip_vault_envelope) (λ e. cc)
        | inr (bytes, good) ↦
            rw (cut, cut2, is_vault, good, strip_vault_envelope) (λ e. (bytes, cc))
      ]
    ]
  ]
]

-- The parts of a token are taken apart where they were joined.
unverified_issuer-parts :
    (jwt : Jwt) (header payload : List ℕ) (sig : Text)
    → All (λ b. b < 256) payload
    → All (λ c. c ≢ b'.') sig
    → unverified_issuer jwt ((encode_raw header ++ b'.' ∷ encode_raw payload) ++ b'.' ∷ sig)
      ≡ text_of (jwt.iss_of payload)
unfolding unverified_issuer iss_of_parts
unverified_issuer-parts jwt header payload sig hb hs =
    rw
      (
        append_assoc (encode_raw header) (b'.' ∷ encode_raw payload) (b'.' ∷ sig),
        split-part b'.' (encode_raw header) (encode_raw payload ++ b'.' ∷ sig) (undotted header),
        split-part b'.' (encode_raw payload) sig (undotted payload),
        split-last b'.' sig hs,
        decode-encode_raw payload hb,
        iss_of_parts,
      )
      refl

is_empty-text_of : (s : Text) → text_of (if is_empty s then none else some s) ≡ s
is_empty-text_of [] = refl
is_empty-text_of (c ∷ s) = refl

respond-claims :
    (cfg : IssuerConfig) (req : IssueTokenRequest) (time : ℕ)
    → Allowed cfg time req
    → respond (claims_of cfg req time)
      ≡ ok (record { client_id = req.subject; jti = req.jti; kms_tenant = req.kms_tenant })
unfolding respond claims_of
respond-claims cfg req time a =
    rw
      (
        ne-is_empty req.jti a.jti,
        ne-is_empty req.subject a.subject,
        is_empty-text_of req.kms_tenant,
      )
      refl

finish_with-ok :
    (keyed : Keyed) (k : PublicKey) (time : ℕ) (claims : Claims) {r : TokenValidationResponse}
    → keyed.finish k time ≡ ok claims
    → respond claims ≡ ok r
    → finish_with keyed k time ≡ ok r
unfolding finish_with
finish_with-ok keyed k time claims e f = rw (e, f, finish_with) refl

key_info_of-version :
    (key : KeyData) (info : KeyInfo)
    → key_info_of key ≡ ok info
    → info.latest_version ≡ key.latest_version
unfolding key_info_of
key_info_of-version key info = elim (Option-cases key.keys) [
  | inl none_there ↦ rw (none_there, key_info_of) (λ e. cc)
  | inr (raw, e) ↦ elim (Bool-cases (is_empty (collect_versions raw []))) [
    | inl empty ↦ rw (e, empty, key_info_of) (λ e. cc)
    | inr full ↦ rw (e, full, key_info_of) (λ e. ap (version_of key.latest_version) (sym e))
  ]
]
  where
    version_of : ℤ → Result SignError KeyInfo → ℤ
    version_of v (ok info) = info.latest_version
    version_of v (err e) = v

module _ (bao : Bao) (jwt : Jwt) (verify : PublicKey → Text → List ℕ → Bool) (w : World)
    (p : Plugin) where
  -- what is done with the keyfunc's result
  abbrev after :
      Keyed
      → Result KeyError PublicKey × JwksCache
      → Result Status TokenValidationResponse × JwksCache
  after keyed r = elim (r.0) [
    | err e ↦ (err (key_status e), r.1)
    | ok k ↦ (finish_with keyed k (now w (tick w r.1)), tick w r.1)
  ]

  opened :
      (token : Text) (keyed : Keyed) (c : JwksCache)
      → jwt.parse (options_of p) token ≡ some keyed
      → validate_pat jwt w p token c ≡ after keyed (keyfunc jwt w p keyed.kid c)
  unfolding validate_pat
  opened token keyed c parsed = rw (parsed, validate_pat) refl

  -- the run of an accepted token
  accepts :
      (token kid : Text) (keyed : Keyed) (k : PublicKey) (c c' : JwksCache)
      (r : TokenValidationResponse)
      → p.pat_keys ≡ true
      → unverified_issuer jwt token ≡ p.pat_iss
      → jwt.parse (options_of p) token ≡ some keyed
      → keyed.kid ≡ some kid
      → is_empty kid ≡ false
      → key w kid c ≡ (ok k, c')
      → finish_with keyed k (now w (tick w c')) ≡ ok r
      → validate_token jwt w p token c ≡ (ok r, tick w c')
  unfolding validate_token validate_pat keyfunc
  accepts token kid keyed k c c' r on routed parsed has_kid there found done =
      let same : text_eq (unverified_issuer jwt token) p.pat_iss ≡ true =
        (text_eq_iff (unverified_issuer jwt token) p.pat_iss).1 routed in
      let asked : keyfunc jwt w p keyed.kid c ≡ (ok k, c') = rw (has_kid, there, keyfunc) found in
      let checked : validate_pat jwt w p token c ≡ (ok r, tick w c') =
        opened token keyed c parsed ∙ ap (after keyed) asked ∙ ap (λ s. (s, tick w c')) done in
      rw (on, same, validate_token) checked

  issued_from :
      (cfg : IssuerConfig) (req : IssueTokenRequest) (time : ℕ) (h h' : List BaoCall) (token : Text)
      (r : Result IssueError Text × List BaoCall)
      → Ends bao cfg time req h r
      → r ≡ (ok token, h')
      → Allowed cfg time req × ((k : List BaoCall) × Minted bao (claims_of cfg req time) h token k)
  issued_from cfg req time h h' token _ (refused barred) e = cc
  issued_from cfg req time h h' token _ (not_minted k a) e = cc
  issued_from cfg req time h h' token _ (issued token' k a m) e = (
    a,
    (
      k,
      let same : token' ≡ token = cc in
          subst (λ t. Minted bao (claims_of cfg req time) h t k) same m,
    ),
  )

  signing_string-header :
      (alg : Text) (info : KeyInfo) (claims : Claims) {v : ℤ}
      → alg ≡ lit "ES256"
      → info.latest_version ≡ v
      → signing_string bao alg info claims
        ≡ encode_raw (bao.header_json (header_of v)) ++ b'.' ∷ encode_raw (bao.claims_json claims)
  unfolding signing_string
  signing_string-header alg info claims e v = rw (e, v, signing_string) refl

  -- A token that was issued over OpenBao is accepted for its subject, with its jti and KMS tenant, by a
  -- plugin with the same issuer and audience, until a minute after its end, when the cache finds the
  -- public key of the version that OpenBao's key had, and the libraries and OpenBao do what is
  -- documented.
  pub validate_token-issue_token :
      (cfg : IssuerConfig) (req : IssueTokenRequest) (time e : ℕ) (h h' : List BaoCall)
      (token : Text) (data_key : KeyData) (k : PublicKey) (c c' : JwksCache)
      → p.pat_keys ≡ true
      → p.pat_iss ≡ cfg.issuer
      → p.pat_audience ≡ cfg.audience
      → Documented bao jwt verify k data_key.latest_version (claims_of cfg req time)
      → bao.read_reply (read ∷ h) ≡ some data_key
      → issue_token (transit_signer bao) cfg time req h ≡ (ok token, h')
      → key w (itoa data_key.latest_version) c ≡ (ok k, c')
      → req.expires_at ≡ pos e
      → now w (tick w c') < e * second + 60 * second
      → validate_token jwt w p token c ≡ (
        ok (record { client_id = req.subject; jti = req.jti; kms_tenant = req.kms_tenant }),
        tick w c',
      )
  unfolding claims_of sign_request
  validate_token-issue_token cfg req time e h h' token data_key k c c' on iss aud d got issue found
        ends alive =
      let claims = claims_of cfg req time in
      let (a, (calls, m)) =
        issued_from cfg req time h h' token _ (issue_token-Ends bao cfg time req h) issue in
      let same_key : m.key ≡ data_key = cc in
      let version : m.info.latest_version ≡ data_key.latest_version =
        key_info_of-version m.key m.info m.has_info
        ∙ ap (λ (q : KeyData). q.latest_version) same_key in
      let signing : Text =
        encode_raw (bao.header_json (header_of data_key.latest_version))
        ++ b'.' ∷ encode_raw (bao.claims_json claims) in
      let signed : signing_string bao m.alg m.info claims ≡ signing =
        signing_string-header m.alg m.info claims m.is_es256 version in
      let whole : token ≡ signing ++ b'.' ∷ m.sig = m.whole ∙ ap (λ t. t ++ b'.' ∷ m.sig) signed in
      let (keyed, parsed, has_kid, finish) = d.parses (options_of p) m.sig m.bytes refl m.decoded in
      let verified : verify k signing m.bytes ≡ true =
        d.signs (read ∷ h) (sign_request bao (signing_string bao m.alg m.info claims) m.info)
          signing m.envelope m.sig m.bytes version (ap Base64.encode signed) m.signed m.stripped
          m.decoded in
      let fits : Fits (options_of p) claims (now w (tick w c')) = record {
        iss = ap some (sym iss);
        aud = Memᴰ.head aud;
        expires_at = e;
        exp = ap some ends;
        alive = alive;
      } in
      let (bytes, encoded) = stripped_encoded m.envelope m.sig m.stripped in
      let no_dot : All (λ c. c ≢ b'.') m.sig =
        subst (All (λ c. c ≢ b'.')) (sym encoded) (undotted bytes) in
      let routed : unverified_issuer jwt token ≡ p.pat_iss =
        ap (unverified_issuer jwt) whole
        ∙ unverified_issuer-parts jwt (bao.header_json (header_of data_key.latest_version))
            (bao.claims_json claims) m.sig d.claims_bytes no_dot
        ∙ ap text_of d.reads_iss
        ∙ sym iss in
      let done : finish_with keyed k (now w (tick w c')) ≡ ok _ =
        finish_with-ok keyed k (now w (tick w c')) claims (finish (now w (tick w c')) verified fits)
          (respond-claims cfg req time a) in
      accepts token (itoa data_key.latest_version) keyed k c c' _ on routed
        (ap (jwt.parse (options_of p)) whole ∙ parsed) has_kid
        (is_empty-itoa data_key.latest_version) found done
