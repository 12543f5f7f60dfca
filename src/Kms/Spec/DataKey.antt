-- ===== src/Kms/Spec/DataKey.antt =====
-- The size of a data key.
use orbitport.Base.{ℕ, ◌*◌, ◌<◌, ◌≡◌, refl, [], ◌∷◌, arith, ◌↔◌, ◌⊎◌, inl, inr}
use orbitport.Base.Result.{ok}
use orbitport.Text.{Text, text_eq}
use orbitport.Text.Equal.{text_eq_iff}
use orbitport.Kms.Spec.{data_key_bits, aes128, aes256}

-- What a request for a data key of this many bits looks like.
abbrev Sized : Text → ℕ → ℕ → Type 0
Sized spec bytes bits =
    ((spec ≡ []) × (0 < bytes) × (bits ≡ bytes * 8))
    ⊎ ((bytes ≡ 0) × (((spec ≡ aes128) × (bits ≡ 128)) ⊎ ((spec ≡ aes256) × (bits ≡ 256))))

spelled : (c : ℕ) (t : Text) (n bits : ℕ) → data_key_bits (c ∷ t) n ≡ ok bits → Sized (c ∷ t) n bits
unfolding data_key_bits
spelled c t n bits e = ground (arith, text_eq_iff (c ∷ t) aes128, text_eq_iff (c ∷ t) aes256)

sized : (spec : Text) (n bits : ℕ) → data_key_bits spec n ≡ ok bits → Sized spec n bits
sized [] n bits e = unfold data_key_bits in ground arith
sized (c ∷ t) n bits e = spelled c t n bits e

accepted : (spec : Text) (n bits : ℕ) → Sized spec n bits → data_key_bits spec n ≡ ok bits
unfolding data_key_bits text_eq
accepted spec n bits (inl (empty, some_bytes, all)) = rw (empty, all) ground arith
accepted spec n bits (inr (none, inl (is128, all))) = rw (none, is128, all) refl
accepted spec n bits (inr (none, inr (is256, all))) = rw (none, is256, all) refl

-- A data key has a size exactly when either no specification and a positive number of bytes is given,
-- and it is that many bytes long, or no bytes and AES_128 or AES_256, and it has 128 or 256 bits.
data_key_bits_iff :
    (spec : Text) (n bits : ℕ) → (data_key_bits spec n ≡ ok bits) ↔ Sized spec n bits
data_key_bits_iff spec n bits = (sized spec n bits, accepted spec n bits)
