-- ===== src/Kms/Blob/RoundTrip.antt =====
-- A blob that is made for a key is read back.
use orbitport.Base.{◌<◌, ◌≡◌, ◌≢◌, refl, ap, ◌∙◌, [], ◌∷◌, some}
use orbitport.Base.All.{All}
use orbitport.Base.Optional.{◌>>=◌}
use orbitport.Base.Result.{ok}
use orbitport.Text.{Text, text_eq}
use orbitport.Base64.Padded.{decode-encode}
use orbitport.Kms.Blob.{
  Json, Members, blob_backend_key, normalize_blob, omit_empty, members_of, fold_char, read_text,
  read_int, read_member, read_members, zero_blob, new_blob, encode_ciphertext_blob, is_version_1,
  parse_blob, check_blob, decode_ciphertext_blob,
}

-- JSON reads back the members that it has written, and writes bytes.
pub record ReadsBack (json : Json) (members : Members) : Type 0 where
  pub bytes : All (λ b. b < 256) (json.write members)
  pub back : json.read (json.write members) ≡ some members

-- The members that a blob is written as give this blob, whichever of them are left out.
read_members-members_of :
    (scheme key_id key ciphertext algorithm : Text)
    → read_members (members_of (new_blob scheme key_id key ciphertext algorithm)) zero_blob
      ≡ some (new_blob scheme key_id key ciphertext algorithm)
unfolding read_members members_of omit_empty read_member read_text read_int fold_char text_eq
read_members-members_of [] i [] c a = refl
read_members-members_of [] i (z ∷ k) c a = refl
read_members-members_of (x ∷ s) i [] c a = refl
read_members-members_of (x ∷ s) i (z ∷ k) c a = refl

parse_blob-encode :
    (json : Json) (scheme key_id key ciphertext algorithm : Text)
    → ReadsBack json (members_of (new_blob scheme key_id key ciphertext algorithm))
    → parse_blob json (encode_ciphertext_blob json scheme key_id key ciphertext algorithm)
      ≡ some (new_blob scheme key_id key ciphertext algorithm)
unfolding parse_blob encode_ciphertext_blob
parse_blob-encode json scheme key_id key ciphertext algorithm r =
    let members = members_of (new_blob scheme key_id key ciphertext algorithm) in
    ap (λ o. o >>= λ raw. json.read raw >>= λ ms. read_members ms zero_blob)
      (decode-encode (json.write members) r.bytes)
    ∙ ap (λ o. o >>= λ ms. read_members ms zero_blob) r.back
    ∙ read_members-members_of scheme key_id key ciphertext algorithm

check_blob-new :
    (scheme key_id key ciphertext algorithm : Text)
    → scheme ≢ []
    → key_id ≢ []
    → key ≢ []
    → ciphertext ≢ []
    → algorithm ≢ []
    → check_blob (some (new_blob scheme key_id key ciphertext algorithm))
      ≡ ok (new_blob scheme key_id key ciphertext algorithm)
unfolding check_blob normalize_blob blob_backend_key is_version_1
check_blob-new [] i k c a s t u v w = absurd (s refl)
check_blob-new (x ∷ s) [] k c a h t u v w = absurd (t refl)
check_blob-new (x ∷ s) (y ∷ i) [] c a h t u v w = absurd (u refl)
check_blob-new (x ∷ s) (y ∷ i) (z ∷ k) [] a h t u v w = absurd (v refl)
check_blob-new (x ∷ s) (y ∷ i) (z ∷ k) (p ∷ c) [] h t u v w = absurd (w refl)
check_blob-new (x ∷ s) (y ∷ i) (z ∷ k) (p ∷ c) (q ∷ a) h t u v w = refl

-- Let the scheme, the key id, the provider's key, the ciphertext and the algorithm not be empty, and let
-- JSON read back the members that it has written for the blob of them. Then the text that is made of
-- them, in base64, is decoded to the blob with version 1, these five and no key of the transit engine,
-- through the tags of the members and the checks of the decoder.
pub decode_ciphertext_blob-encode :
    (json : Json) (scheme key_id key ciphertext algorithm : Text)
    → ReadsBack json (members_of (new_blob scheme key_id key ciphertext algorithm))
    → scheme ≢ []
    → key_id ≢ []
    → key ≢ []
    → ciphertext ≢ []
    → algorithm ≢ []
    → decode_ciphertext_blob json
        (encode_ciphertext_blob json scheme key_id key ciphertext algorithm)
      ≡ ok (new_blob scheme key_id key ciphertext algorithm)
unfolding decode_ciphertext_blob
decode_ciphertext_blob-encode json scheme key_id key ciphertext algorithm r s i k c a =
    ap check_blob (parse_blob-encode json scheme key_id key ciphertext algorithm r)
    ∙ check_blob-new scheme key_id key ciphertext algorithm s i k c a
