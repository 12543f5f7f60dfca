-- ===== src/Kms/Spec/Usage.antt =====
-- Which specifications and usages a scheme accepts, and that they belong to one scheme.
use orbitport.Base.{
  ◌≡◌, ◌≢◌, refl, sym, ap, ◌∙◌, true, false, List, [], ◌∷◌, arith, ◌↔◌, ◌⊎◌, inl, inr, Bool-cases,
}
use orbitport.Base.All.{All}
use orbitport.Base.Result.{ok}
use orbitport.Text.{Text, text_eq}
use orbitport.Text.Equal.{text_eq_iff}
use orbitport.Kms.Spec.{
  one_of, transit_specs, validate_transit_key_spec, supports_encryption, supports_signing,
  validate_transit_key_usage, validate_ethereum_key_usage, validate_pqc_key_usage,
  is_pqc_signing_key, is_pqc_kem_key, encrypt_decrypt, sign_verify, ecc_secg_p256k1, ecdsa_p256,
  ecdsa_p384, ed25519, rsa_4096, aes_256_gcm96, ml_kem_768, ml_kem_1024, ml_dsa_44, ml_dsa_65,
  ml_dsa_87,
}

abbrev OneOf : Text → List Text → Type 0
OneOf s [] = ⊥
OneOf s (t ∷ ts) = (s ≡ t) ⊎ OneOf s ts

one_of-OneOf : (s : Text) (ts : List Text) → one_of s ts ≡ true → OneOf s ts
unfolding one_of
one_of-OneOf s [] e = cc
one_of-OneOf s (t ∷ ts) e = elim (Bool-cases (text_eq s t)) [
  | inl same ↦ inl ((text_eq_iff s t).0 same)
  | inr other ↦ inr (one_of-OneOf s ts (rw (other, one_of) at e))
]

one_of-accepts : (s : Text) (ts : List Text) → OneOf s ts → one_of s ts ≡ true
unfolding one_of
one_of-accepts s [] x = elim x [ ]
one_of-accepts s (t ∷ ts) (inl same) = rw ((text_eq_iff s t).1 same) refl
one_of-accepts s (t ∷ ts) (inr later) = elim (Bool-cases (text_eq s t)) [
  | inl same ↦ rw (same) refl
  | inr other ↦ rw (other) (one_of-accepts s ts later)
]

-- What the validator of transit keys has checked.
checked :
    (spec usage : Text)
    → validate_transit_key_usage spec usage ≡ ok tt
    → OneOf spec transit_specs
      × (((spec ≡ aes_256_gcm96) × (usage ≡ encrypt_decrypt))
          ⊎ ((spec ≢ aes_256_gcm96) × (usage ≡ sign_verify)))
unfolding validate_transit_key_usage validate_transit_key_spec
checked spec usage e = elim (Bool-cases (one_of spec transit_specs)) [
  | inr unknown ↦ ground arith
  | inl known ↦ (
    one_of-OneOf spec transit_specs known,
    ground (
      arith,
      text_eq_iff spec aes_256_gcm96,
      text_eq_iff usage encrypt_decrypt,
      text_eq_iff usage sign_verify,
    ),
  )
]

-- A text of one list is not in another list, when no entry of the first is in the second.
elsewhere :
    (s : Text) (ts us : List Text)
    → All (λ t. one_of t us ≡ false) ts
    → OneOf s ts
    → one_of s us ≡ false
elsewhere s [] us a x = elim x [ ]
elsewhere s (t ∷ ts) us a (inl same) = ap (λ x. one_of x us) same ∙ a.0
elsewhere s (t ∷ ts) us a (inr later) = elsewhere s ts us a.1 later

abbrev mldsa_specs : List Text
mldsa_specs = ml_dsa_44 ∷ ml_dsa_65 ∷ ml_dsa_87 ∷ []

abbrev mlkem_specs : List Text
mlkem_specs = ml_kem_768 ∷ ml_kem_1024 ∷ []

transit-no_mldsa : All (λ t. one_of t mldsa_specs ≡ false) transit_specs
unfolding one_of text_eq
transit-no_mldsa = (refl, (refl, (refl, (refl, (refl, tt)))))

transit-no_mlkem : All (λ t. one_of t mlkem_specs ≡ false) transit_specs
unfolding one_of text_eq
transit-no_mlkem = (refl, (refl, (refl, (refl, (refl, tt)))))

transit-no_secp : All (λ t. one_of t (ecc_secg_p256k1 ∷ []) ≡ false) transit_specs
unfolding one_of text_eq
transit-no_secp = (refl, (refl, (refl, (refl, (refl, tt)))))

ethereum_checked :
    (spec usage : Text) → validate_ethereum_key_usage spec usage ≡ ok tt → spec ≡ ecc_secg_p256k1
unfolding validate_ethereum_key_usage
ethereum_checked spec usage e = ground (arith, text_eq_iff spec ecc_secg_p256k1)

pqc_checked :
    (spec usage : Text)
    → validate_pqc_key_usage spec usage ≡ ok tt
    → (one_of spec mldsa_specs ≡ true) ⊎ (one_of spec mlkem_specs ≡ true)
unfolding validate_pqc_key_usage is_pqc_signing_key is_pqc_kem_key
pqc_checked spec usage e = ground arith

-- A specification that one list has and no entry of the other is in is not in the other.
clash :
    {r : Type 0} (s : Text) (ts us : List Text)
    → All (λ t. one_of t us ≡ false) ts
    → OneOf s ts
    → one_of s us ≡ true
    → r
clash s ts us a x e =
    let absent : one_of s us ≡ false = elsewhere s ts us a x in
    let bad : true ≡ false = sym e ∙ absent in cc

transit-not_pqc :
    (spec : Text)
    → OneOf spec transit_specs
    → (one_of spec mldsa_specs ≡ true) ⊎ (one_of spec mlkem_specs ≡ true)
    → ⊥
transit-not_pqc spec x (inl signs) = clash spec transit_specs mldsa_specs transit-no_mldsa x signs
transit-not_pqc spec x (inr agrees) = clash spec transit_specs mlkem_specs transit-no_mlkem x agrees

secp-not_pqc :
    (spec : Text)
    → spec ≡ ecc_secg_p256k1
    → (one_of spec mldsa_specs ≡ true) ⊎ (one_of spec mlkem_specs ≡ true)
    → ⊥
unfolding one_of text_eq
secp-not_pqc spec same (inl signs) =
    clash spec (ecc_secg_p256k1 ∷ []) mldsa_specs (refl, tt) (inl same) signs
secp-not_pqc spec same (inr agrees) =
    clash spec (ecc_secg_p256k1 ∷ []) mlkem_specs (refl, tt) (inl same) agrees

-- No specification and usage is accepted for two of the schemes TRANSIT, ETHEREUM and PQC.
pub validators_exclusive :
    (spec usage : Text)
    → ¬ (
        (validate_transit_key_usage spec usage ≡ ok tt)
        × (validate_ethereum_key_usage spec usage ≡ ok tt))
      × ¬ (
          (validate_transit_key_usage spec usage ≡ ok tt)
          × (validate_pqc_key_usage spec usage ≡ ok tt))
      × ¬ (
          (validate_ethereum_key_usage spec usage ≡ ok tt)
          × (validate_pqc_key_usage spec usage ≡ ok tt))
validators_exclusive spec usage = (
  (λ (t, e).
      clash spec transit_specs (ecc_secg_p256k1 ∷ []) transit-no_secp (checked spec usage t).0
        (one_of-accepts spec (ecc_secg_p256k1 ∷ []) (inl (ethereum_checked spec usage e)))),
  (λ (t, q). transit-not_pqc spec (checked spec usage t).0 (pqc_checked spec usage q)),
  (λ (e, q). secp-not_pqc spec (ethereum_checked spec usage e) (pqc_checked spec usage q)),
)

abbrev signing_specs : List Text
signing_specs = ecdsa_p256 ∷ ecdsa_p384 ∷ ed25519 ∷ rsa_4096 ∷ ecc_secg_p256k1 ∷ []

signs_unless_aes : (s : Text) → OneOf s transit_specs → s ≢ aes_256_gcm96 → OneOf s signing_specs
signs_unless_aes s (inl e) n = inl e
signs_unless_aes s (inr (inl e)) n = inr (inl e)
signs_unless_aes s (inr (inr (inl e))) n = inr (inr (inl e))
signs_unless_aes s (inr (inr (inr (inl e)))) n = inr (inr (inr (inl e)))
signs_unless_aes s (inr (inr (inr (inr (inl e))))) n = absurd (n e)
signs_unless_aes s (inr (inr (inr (inr (inr x))))) n = elim x [ ]

-- The signing specifications but secp256k1 are accepted for signing.
accepts_signing :
    (s : Text)
    → OneOf s signing_specs
    → s ≢ ecc_secg_p256k1
    → validate_transit_key_usage s sign_verify ≡ ok tt
unfolding validate_transit_key_usage validate_transit_key_spec one_of text_eq
accepts_signing s (inl e) n = ap (λ t. validate_transit_key_usage t sign_verify) e
accepts_signing s (inr (inl e)) n = ap (λ t. validate_transit_key_usage t sign_verify) e
accepts_signing s (inr (inr (inl e))) n = ap (λ t. validate_transit_key_usage t sign_verify) e
accepts_signing s (inr (inr (inr (inl e)))) n = ap (λ t. validate_transit_key_usage t sign_verify) e
accepts_signing s (inr (inr (inr (inr (inl e))))) n = absurd (n e)
accepts_signing s (inr (inr (inr (inr (inr x))))) n = elim x [ ]

accepts_encryption :
    (s : Text) → s ≡ aes_256_gcm96 → validate_transit_key_usage s encrypt_decrypt ≡ ok tt
unfolding validate_transit_key_usage validate_transit_key_spec one_of text_eq
accepts_encryption s e = ap (λ t. validate_transit_key_usage t encrypt_decrypt) e

allowed :
    (spec usage : Text)
    → ((supports_encryption spec ≡ true) × (usage ≡ encrypt_decrypt))
      ⊎ ((supports_signing spec ≡ true) × (spec ≢ ecc_secg_p256k1) × (usage ≡ sign_verify))
    → validate_transit_key_usage spec usage ≡ ok tt
unfolding supports_encryption supports_signing
allowed spec usage (inl (encrypts, u)) =
    ap (validate_transit_key_usage spec) u
    ∙ accepts_encryption spec ((text_eq_iff spec aes_256_gcm96).0 encrypts)
allowed spec usage (inr (signs, not_secp, u)) =
    ap (validate_transit_key_usage spec) u
    ∙ accepts_signing spec (one_of-OneOf spec signing_specs signs) not_secp

supported :
    (spec usage : Text)
    → validate_transit_key_usage spec usage ≡ ok tt
    → ((supports_encryption spec ≡ true) × (usage ≡ encrypt_decrypt))
      ⊎ ((supports_signing spec ≡ true) × (spec ≢ ecc_secg_p256k1) × (usage ≡ sign_verify))
unfolding supports_encryption supports_signing text_eq
supported spec usage e = elim (checked spec usage e).1 [
  | inl (aes, encrypts) ↦ inl ((text_eq_iff spec aes_256_gcm96).1 aes, encrypts)
  | inr (not_aes, signs) ↦
      let known = (checked spec usage e).0 in
      inr (
        one_of-accepts spec signing_specs (signs_unless_aes spec known not_aes),
        (λ secp.
            clash spec transit_specs (ecc_secg_p256k1 ∷ []) transit-no_secp known
              (one_of-accepts spec (ecc_secg_p256k1 ∷ []) (inl secp))),
        signs,
      )
]

-- The validator of transit keys accepts exactly the keys that encrypt, and those that sign with a
-- specification other than secp256k1, each with the usage of its kind.
pub validate_transit_key_usage_iff :
    (spec usage : Text)
    → (validate_transit_key_usage spec usage ≡ ok tt) ↔ (
        ((supports_encryption spec ≡ true) × (usage ≡ encrypt_decrypt))
        ⊎ ((supports_signing spec ≡ true) × (spec ≢ ecc_secg_p256k1) × (usage ≡ sign_verify)))
validate_transit_key_usage_iff spec usage = (supported spec usage, allowed spec usage)
