-- ===== src/Kms/KeyStore/Paths.antt =====
-- The path of a normalized name lies below the path of its owner, and names that differ have paths
-- that differ.
use orbitport.Base.{
  ℕ, ◌+◌, ◌≡◌, ◌≢◌, refl, sym, ap, ap₂, ◌∙◌, Bool, true, false, List, [], ◌∷◌, ◌++◌, arith, ◌==◌,
  length, append_assoc,
}
use orbitport.Base.All.{All}
use orbitport.Base.Result.{Result, ok}
use orbitport.Text.{Text, is_empty, lit, trim_slash, split, starts_with, ends_with}
use orbitport.Text.Trim.{trim_slash-bare}
use orbitport.Text.Split.{join, join-split}
use orbitport.Kms.Tenant.{all_chars}
use orbitport.Kms.KeyStore.{
  NameError, is_segment_char, validate_segments, normalize_key_store_name, key_store_path_parts,
  clean_step, clean, part_segments, StoreClient, join_path, owner_parts, key_store_data_path,
  key_store_metadata_path,
}
use orbitport.Kms.KeyStore.Names.{
  Segment, NormalName, All-validate_segments, normalize_key_store_name-NormalName,
}

-- the first list in front of the second, turned round
abbrev pub onto : List Text → List Text → List Text
onto [] done = done
onto (s ∷ ss) done = onto ss (s ∷ done)

length-onto : (ss done : List Text) → length (onto ss done) ≡ length ss + length done
length-onto [] done = omega arith
length-onto (s ∷ ss) done = omega (arith, length-onto ss (s ∷ done))

onto-injective_at :
    (ss ts d e : List Text) → length ss ≡ length ts → onto ss d ≡ onto ts e → (ss ≡ ts) × (d ≡ e)
onto-injective_at [] [] d e l h = (refl, h)
onto-injective_at [] (t ∷ ts) d e l h = absurd (omega (arith, l))
onto-injective_at (s ∷ ss) [] d e l h = absurd (omega (arith, l))
onto-injective_at (s ∷ ss) (t ∷ ts) d e l h =
    let (rest, both) = onto-injective_at ss ts (s ∷ d) (t ∷ e) (omega (arith, l)) h in
    let head : s ≡ t = cc (both) in let tail : d ≡ e = cc (both) in (ap₂ ◌∷◌ head rest, tail)

onto-injective : (ss ts d : List Text) → onto ss d ≡ onto ts d → ss ≡ ts
onto-injective ss ts d h =
    let same : length ss ≡ length ts =
      omega (arith, length-onto ss d, length-onto ts d, ap length h) in
    (onto-injective_at ss ts d d same h).0

clean-append :
    (r : Bool) (done xs ys : List Text) → clean r done (xs ++ ys) ≡ clean r (clean r done xs) ys
unfolding clean
clean-append r done [] ys = refl
clean-append r done (x ∷ xs) ys = clean-append r (clean_step r done x) xs ys

-- Segments are put on the path as they are.
clean-All : (r : Bool) (done ss : List Text) → All Segment ss → clean r done ss ≡ onto ss done
unfolding clean clean_step
clean-All r done [] a = refl
clean-All r done (s ∷ ss) a =
    let step : clean_step r done s ≡ s ∷ done = rw (a.0.named, a.0.not_here, a.0.not_up) refl in
    ap (λ d. clean r d ss) step ∙ clean-All r (s ∷ done) ss a.1

-- A text of the allowed characters has no slash.
segment_char-not_slash : (c : ℕ) → is_segment_char c ≡ true → (c == b'/') ≡ false
unfolding is_segment_char
segment_char-not_slash c e = ground arith

first_char :
    (c : ℕ) (s : Text)
    → all_chars is_segment_char (c ∷ s) ≡ true
    → ((c == b'/') ≡ false) × (all_chars is_segment_char s ≡ true)
unfolding all_chars
first_char c s e = ground (arith, segment_char-not_slash c)

split-one : (s : Text) → all_chars is_segment_char s ≡ true → split b'/' s ≡ s ∷ []
unfolding split
split-one [] e = refl
split-one (c ∷ s) e =
    let (not_slash, others) = first_char c s e in rw (not_slash, split-one s others) refl

ends_with-no_slash : (s : Text) → all_chars is_segment_char s ≡ true → ends_with b'/' s ≡ false
unfolding ends_with
ends_with-no_slash [] e = refl
ends_with-no_slash (c ∷ []) e = (first_char c [] e).0
ends_with-no_slash (c ∷ d ∷ s) e = ends_with-no_slash (d ∷ s) (first_char c (d ∷ s) e).1

starts_with-no_slash : (s : Text) → all_chars is_segment_char s ≡ true → starts_with b'/' s ≡ false
unfolding starts_with
starts_with-no_slash [] e = refl
starts_with-no_slash (c ∷ s) e = (first_char c s e).0

part_segments-All : (ss : List Text) → All Segment ss → part_segments ss ≡ ss
unfolding part_segments
part_segments-All [] a = refl
part_segments-All (s ∷ ss) a =
    let bare : trim_slash s ≡ s =
      trim_slash-bare s (starts_with-no_slash s a.0.clean) (ends_with-no_slash s a.0.clean) in
    rw (bare, split-one s a.0.clean, part_segments-All ss a.1) refl

part_segments-append :
    (xs ys : List Text) → part_segments (xs ++ ys) ≡ part_segments xs ++ part_segments ys
unfolding part_segments
part_segments-append [] ys = refl
part_segments-append (x ∷ xs) ys =
    ap (λ t. split b'/' (trim_slash x) ++ t) (part_segments-append xs ys)
    ∙ sym (append_assoc (split b'/' (trim_slash x)) (part_segments xs) (part_segments ys))

-- Segments behind other parts are joined to their path.
join_path-All :
    (c : StoreClient) (parts ss : List Text)
    → All Segment ss
    → join_path c (parts ++ ss) ≡ onto ss (join_path c parts)
unfolding join_path
join_path-All c parts ss a =
    ap (λ t. clean c.rooted [] (c.base_path ++ t))
      (part_segments-append parts ss ∙ ap (λ t. part_segments parts ++ t) (part_segments-All ss a))
    ∙ ap (clean c.rooted []) (sym (append_assoc c.base_path (part_segments parts) ss))
    ∙ clean-append c.rooted [] (c.base_path ++ part_segments parts) ss
    ∙ clean-All c.rooted (clean c.rooted [] (c.base_path ++ part_segments parts)) ss a

split_parts :
    (name : Text)
    → is_empty name ≡ false
    → trim_slash name ≡ name
    → validate_segments (split b'/' name) ≡ ok tt
    → key_store_path_parts name ≡ ok (split b'/' name)
unfolding key_store_path_parts
split_parts name e t v = rw (t, e, v) refl

non_empty : (s : Text) → s ≢ [] → is_empty s ≡ false
non_empty [] h = absurd (h refl)
non_empty (c ∷ s) h = refl

name_parts : (name : Text) → NormalName name → key_store_path_parts name ≡ ok (split b'/' name)
name_parts name n =
    split_parts name (non_empty name n.named) (trim_slash-bare name n.edges.0 n.edges.1)
      (All-validate_segments (split b'/' name) n.segments)

-- Names with the same parts are the same.
split-injective : (s t : Text) → split b'/' s ≡ split b'/' t → s ≡ t
split-injective s t e = sym (join-split b'/' s) ∙ ap (join b'/') e ∙ join-split b'/' t

module _ (sha256 : List ℕ → List ℕ) (c : StoreClient) where
  -- For an accepted name, the paths of its data and of its metadata are the owner's path with the
  -- segments of the name behind it, and nothing else: no name leads out of its owner's area.
  pub key_store_paths-below_owner :
      (client_id value name : Text)
      → normalize_key_store_name value ≡ ok name
      → (key_store_data_path sha256 c client_id name
          ≡ ok (onto (split b'/' name) (join_path c (owner_parts sha256 c (lit "data") client_id))))
        × (key_store_metadata_path sha256 c client_id name
            ≡ ok (
                onto
                  (split b'/' name)
                  (join_path c (owner_parts sha256 c (lit "metadata") client_id))))
  unfolding key_store_data_path key_store_metadata_path
  key_store_paths-below_owner client_id value name e =
      let n = normalize_key_store_name-NormalName value name e in
      let parts = name_parts name n in
      (
        rw
            (
              parts,
              join_path-All c (owner_parts sha256 c (lit "data") client_id) (split b'/' name)
                  n.segments,
            )
            refl,
        rw
            (
              parts,
              join_path-All c (owner_parts sha256 c (lit "metadata") client_id) (split b'/' name)
                  n.segments,
            )
            refl,
      )

  -- Two accepted names of one client with the same data path are the same name.
  pub key_store_data_path-injective :
      (client_id value other_value name other : Text)
      → normalize_key_store_name value ≡ ok name
      → normalize_key_store_name other_value ≡ ok other
      → key_store_data_path sha256 c client_id name ≡ key_store_data_path sha256 c client_id other
      → name ≡ other
  key_store_data_path-injective client_id v w name other e f h =
      let root : List Text = join_path c (owner_parts sha256 c (lit "data") client_id) in
      let here = (key_store_paths-below_owner client_id v name e).0 in
      let there = (key_store_paths-below_owner client_id w other f).0 in
      let both : ◌≡◌ {A = Result NameError (List Text)} (ok (onto (split b'/' name) root))
          (ok (onto (split b'/' other) root)) =
        sym here ∙ h ∙ there in
      let same : onto (split b'/' name) root ≡ onto (split b'/' other) root = cc (both) in
      split-injective name other (onto-injective (split b'/' name) (split b'/' other) root same)
