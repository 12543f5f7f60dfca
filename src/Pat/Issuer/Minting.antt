-- ===== src/Pat/Issuer/Minting.antt =====
-- What a token that OpenBao signs is made of.
use orbitport.Base.{
  ℕ, ◌≡◌, refl, ap, ◌∙◌, subst, List, ◌∷◌, ◌++◌, some, length, arith, Bool-cases, inl, inr,
  Option-cases,
}
use orbitport.Base.Result.{ok}
use orbitport.Base.Traced.{>>=-ok, lift, lift-ok, return}
use orbitport.Text.{Text, lit, text_eq}
use orbitport.Text.Equal.{text_eq→≡}
use orbitport.Base64.Codec.{raw_url_encoding, decode}
use orbitport.Pat.Types.{Claims}
use orbitport.Pat.Transit.{
  BaoCall, TransitSignRequest, read, sign, KeyData, KeyInfo, Bao, key_info_of, jws_alg,
  strip_vault_envelope, check_signature, read_key, signing_string, sign_request, sign_with, seal,
  mint_with, mint_from, mint,
}

module _ (bao : Bao) where
  -- A token for the claims: the key was read, then OpenBao signed, with the version that the header
  -- names, the text of header and claims; the signature has 64 bytes.
  pub record Minted (claims : Claims) (h : List BaoCall) (token : Text) (h' : List BaoCall)
      : Type 0 where
    pub key : KeyData
    pub info : KeyInfo
    pub alg : Text
    pub envelope : Text
    pub sig : Text
    pub bytes : List ℕ
    pub read_data : bao.read_reply (read ∷ h) ≡ some key
    pub has_info : key_info_of key ≡ ok info
    pub is_p256 : info.key_type ≡ lit "ecdsa-p256"
    pub is_es256 : alg ≡ lit "ES256"
    pub signed :
        bao.sign_reply
          (sign (sign_request bao (signing_string bao alg info claims) info) ∷ read ∷ h)
        ≡ some envelope
    pub stripped : strip_vault_envelope envelope ≡ ok sig
    pub decoded : decode raw_url_encoding sig ≡ some bytes
    pub size : length bytes ≡ 64
    pub whole : token ≡ signing_string bao alg info claims ++ b'.' ∷ sig
    pub calls : h' ≡ sign (sign_request bao (signing_string bao alg info claims) info) ∷ read ∷ h

  jws_alg-p256 :
      (key_type alg : Text)
      → jws_alg key_type ≡ ok alg
      → (key_type ≡ lit "ecdsa-p256") × (alg ≡ lit "ES256")
  unfolding jws_alg
  jws_alg-p256 key_type alg = elim (Bool-cases (text_eq key_type (lit "ecdsa-p256"))) [
    | inl same ↦ rw (same) (λ e. (text_eq→≡ key_type (lit "ecdsa-p256") same, cc))
    | inr other ↦ rw (other) (λ e. cc)
  ]

  pub read_key-ok :
      (h h' : List BaoCall) (info : KeyInfo)
      → read_key bao h ≡ (ok info, h')
      → (key : KeyData) × (bao.read_reply (read ∷ h) ≡ some key)
        × (key_info_of key ≡ ok info)
        × (h' ≡ read ∷ h)
  unfolding read_key
  read_key-ok h h' info = elim (Option-cases (bao.read_reply (read ∷ h))) [
    | inl failed ↦ rw (failed) (λ e. cc)
    | inr (key, got) ↦ rw (got) (λ e. (key, refl, cc, cc))
  ]

  sign_with-ok :
      (req : TransitSignRequest) (h h' : List BaoCall) (sig : Text)
      → sign_with bao req h ≡ (ok sig, h')
      → (envelope : Text) × (bao.sign_reply (sign req ∷ h) ≡ some envelope)
        × (strip_vault_envelope envelope ≡ ok sig)
        × (h' ≡ sign req ∷ h)
  unfolding sign_with
  sign_with-ok req h h' sig = elim (Option-cases (bao.sign_reply (sign req ∷ h))) [
    | inl failed ↦ rw (failed) (λ e. cc)
    | inr (envelope, got) ↦ rw (got) (λ e. (envelope, refl, cc, cc))
  ]

  check_signature-ok :
      (sig : Text)
      → check_signature sig ≡ ok tt
      → (bytes : List ℕ) × (decode raw_url_encoding sig ≡ some bytes) × (length bytes ≡ 64)
  unfolding check_signature
  check_signature-ok sig = elim (Option-cases (decode raw_url_encoding sig)) [
    | inl bad ↦ rw (bad) (λ e. cc)
    | inr (bytes, got) ↦ rw (got) (λ e. (bytes, refl, ground arith))
  ]

  pub mint-Minted :
      (claims : Claims) (h h' : List BaoCall) (token : Text)
      → mint bao claims h ≡ (ok token, h')
      → Minted claims h token h'
  unfolding mint mint_from mint_with seal
  mint-Minted claims h h' token e =
      let (info, k, e1, rest1) = >>=-ok (read_key bao) (mint_from bao claims) h h' e in
      let (alg, k2, e2, rest2) =
        >>=-ok (lift (jws_alg info.key_type)) (mint_with bao claims info) k h' rest1 in
      let signing = signing_string bao alg info claims in
      let (sig, k3, e3, rest3) =
        >>=-ok (sign_with bao (sign_request bao signing info)) (seal bao signing) k2 h' rest2 in
      let (done, k4, e4, rest4) =
        >>=-ok (lift (check_signature sig)) (λ _. return (signing ++ b'.' ∷ sig)) k3 h' rest3 in
      let (key, read_data, has_info, k_is) = read_key-ok h k info e1 in
      let (has_alg, k2_is) = lift-ok (jws_alg info.key_type) e2 in
      let (p256, is_es256) = jws_alg-p256 info.key_type alg has_alg in
      let req = sign_request bao signing info in
      let (envelope, signed, stripped, k3_is) = sign_with-ok req k2 k3 sig e3 in
      let (checked, k4_is) = lift-ok (check_signature sig) e4 in
      let (bytes, decoded, size) = check_signature-ok sig checked in
      let (whole, h'_is) = lift-ok (ok (signing ++ b'.' ∷ sig)) rest4 in
      record {
        key = key;
        info = info;
        alg = alg;
        envelope = envelope;
        sig = sig;
        bytes = bytes;
        read_data = read_data;
        has_info = has_info;
        is_p256 = p256;
        is_es256 = is_es256;
        signed = subst (λ l. bao.sign_reply (sign req ∷ l) ≡ some envelope) (k2_is ∙ k_is) signed;
        stripped = stripped;
        decoded = decoded;
        size = size;
        whole = cc;
        calls = h'_is ∙ k4_is ∙ k3_is ∙ ap (λ l. sign req ∷ l) (k2_is ∙ k_is);
      }
