-- ===== src/Threshold/Coordinate/Pairwise.antt =====
-- The seeds that two nodes share.
use orbitport.Base.{ℕ, ◌≡◌, ◌≢◌, refl, sym, subst, ◌∙◌, List, [], ◌∷◌, none, some, arith}
use orbitport.Base.Result.{ok}
use orbitport.Base.All.{All, All-map}
use orbitport.Text.{Text}
use orbitport.Text.Equal.{text_eq_iff, text_eq_refl}
use orbitport.Threshold.Request.{DkgParticipant, DkgRequest}
use orbitport.Threshold.Request.Sorting.{Different}
use orbitport.Threshold.Session.{Coordinator}
use orbitport.Threshold.Coordinate.{
  SeedMap, set_pair, pair_with, pair_all, pair_label, Bootstrap, new_dkg_bootstrap, derive_seed,
}

-- Both nodes of a pair read the same seed.
abbrev pub IsSymmetric : SeedMap → Type 0
IsSymmetric m = (a b : Text) → m a b ≡ m b a

set_pair-IsSymmetric :
    (left right seed : Text) (m : SeedMap)
    → IsSymmetric m
    → IsSymmetric (set_pair left right seed m)
unfolding set_pair
set_pair-IsSymmetric left right seed m h a b = ground (arith, h a b)

module _ (seed_of : Text → Text → Text) where
  pair_with-IsSymmetric :
      (left : Text) (qs : List DkgParticipant) (m : SeedMap)
      → IsSymmetric m
      → IsSymmetric (pair_with seed_of left qs m)
  unfolding pair_with
  pair_with-IsSymmetric left [] m h = h
  pair_with-IsSymmetric left (q ∷ qs) m h =
      pair_with-IsSymmetric left qs (set_pair left q.node_id (seed_of left q.node_id) m)
        (set_pair-IsSymmetric left q.node_id (seed_of left q.node_id) m h)

  pair_all-IsSymmetric :
      (ps : List DkgParticipant) (m : SeedMap) → IsSymmetric m → IsSymmetric (pair_all seed_of ps m)
  unfolding pair_all
  pair_all-IsSymmetric [] m h = h
  pair_all-IsSymmetric (p ∷ ps) m h =
      pair_all-IsSymmetric ps (pair_with seed_of p.node_id ps m)
        (pair_with-IsSymmetric p.node_id ps m h)

set_pair_self :
    (left right seed : Text) (m : SeedMap) → set_pair left right seed m left right ≡ some seed
unfolding set_pair
set_pair_self left right seed m = ground (arith, text_eq_refl left, text_eq_refl right)

-- A pair keeps its seed when a pair without its first node is set.
set_pair_apart :
    (left right seed : Text) (m : SeedMap) (a b : Text)
    → left ≢ a
    → right ≢ a
    → set_pair left right seed m a b ≡ m a b
unfolding set_pair
set_pair_apart left right seed m a b h k = ground (arith, text_eq_iff left a, text_eq_iff right a)

-- So it does when another partner of its first node is set.
set_pair_other :
    (left right seed : Text) (m : SeedMap) (b : Text)
    → right ≢ b
    → left ≢ b
    → set_pair left right seed m left b ≡ m left b
unfolding set_pair
set_pair_other left right seed m b h k = ground (arith, text_eq_iff left b, text_eq_iff right b)

module _ (seed_of : Text → Text → Text) where
  pair_with_apart :
      (left : Text) (qs : List DkgParticipant) (m : SeedMap) (a b : Text)
      → left ≢ a
      → All (λ q. q.node_id ≢ a) qs
      → pair_with seed_of left qs m a b ≡ m a b
  unfolding pair_with
  pair_with_apart left [] m a b h k = refl
  pair_with_apart left (q ∷ qs) m a b h k =
      pair_with_apart left qs (set_pair left q.node_id (seed_of left q.node_id) m) a b h k.1
      ∙ set_pair_apart left q.node_id (seed_of left q.node_id) m a b h k.0

  pair_with_other :
      (left : Text) (qs : List DkgParticipant) (m : SeedMap) (b : Text)
      → left ≢ b
      → All (λ q. q.node_id ≢ b) qs
      → pair_with seed_of left qs m left b ≡ m left b
  unfolding pair_with
  pair_with_other left [] m b h k = refl
  pair_with_other left (q ∷ qs) m b h k =
      pair_with_other left qs (set_pair left q.node_id (seed_of left q.node_id) m) b h k.1
      ∙ set_pair_other left q.node_id (seed_of left q.node_id) m b k.0 h

  pair_all_apart :
      (ps : List DkgParticipant) (m : SeedMap) (a b : Text)
      → All (λ p. p.node_id ≢ a) ps
      → pair_all seed_of ps m a b ≡ m a b
  unfolding pair_all
  pair_all_apart [] m a b h = refl
  pair_all_apart (p ∷ ps) m a b h =
      pair_all_apart ps (pair_with seed_of p.node_id ps m) a b h.1
      ∙ pair_with_apart p.node_id ps m a b h.0 h.1

  -- The seed of every pair, in the order of the list.
  abbrev pub PairsShare : SeedMap → List DkgParticipant → Type 0
  PairsShare m [] = Unit
  PairsShare m (p ∷ ps) =
      All (λ q. m p.node_id q.node_id ≡ some (seed_of p.node_id q.node_id)) ps × PairsShare m ps

  pair_with-sets :
      (p : DkgParticipant) (qs : List DkgParticipant) (m : SeedMap)
      → Different (p ∷ qs)
      → All
          (λ q.
            pair_with seed_of p.node_id qs m p.node_id q.node_id
            ≡ some (seed_of p.node_id q.node_id))
          qs
  unfolding pair_with
  pair_with-sets p [] m d = tt
  pair_with-sets p (q ∷ qs) m d =
      let m' : SeedMap = set_pair p.node_id q.node_id (seed_of p.node_id q.node_id) m in
      (
        pair_with_other p.node_id qs m' q.node_id (λ e. d.0.0.0 (sym e))
              (All-map (λ r. (r.node_id ≢ q.node_id) × (r.party_index ≢ q.party_index))
                (λ r. r.node_id ≢ q.node_id) (λ r h. h.0) qs d.1.0)
            ∙ set_pair_self p.node_id q.node_id (seed_of p.node_id q.node_id) m,
        pair_with-sets p qs m' (d.0.1, d.1.1),
      )

  pair_all-PairsShare :
      (ps : List DkgParticipant) (m : SeedMap)
      → Different ps
      → PairsShare (pair_all seed_of ps m) ps
  unfolding pair_all
  pair_all-PairsShare [] m d = tt
  pair_all-PairsShare (p ∷ ps) m d =
      let m' : SeedMap = pair_with seed_of p.node_id ps m in
      let others : All (λ q. q.node_id ≢ p.node_id) ps =
        All-map (λ q. (q.node_id ≢ p.node_id) × (q.party_index ≢ p.party_index))
          (λ q. q.node_id ≢ p.node_id) (λ q h. h.0) ps d.0 in
      (
        All-map (λ q. m' p.node_id q.node_id ≡ some (seed_of p.node_id q.node_id))
            (λ q. pair_all seed_of ps m' p.node_id q.node_id ≡ some (seed_of p.node_id q.node_id))
            (λ q e. pair_all_apart ps m' p.node_id q.node_id others ∙ e) ps
            (pair_with-sets p ps m d),
        pair_all-PairsShare ps m' d.1,
      )

made :
    (mac : List ℕ → List ℕ → List ℕ) (c : Coordinator) (req : DkgRequest) (b : Bootstrap)
    → new_dkg_bootstrap mac c req ≡ ok b
    → (c.session_secret ≢ [])
      × (b.pairwise_seeds
          ≡ pair_all
              (λ left right. derive_seed mac c req.session_id req.key_name (pair_label left right))
              req.participants
              (λ l r. none))
unfolding new_dkg_bootstrap
made mac c req b e = ground arith

-- A session has a secret, and gives each pair of its nodes one seed, which both of them read: the
-- seed of the label of the pair, in the order of the participants.
pub new_dkg_bootstrap-PairsShare :
    (mac : List ℕ → List ℕ → List ℕ) (c : Coordinator) (req : DkgRequest) (b : Bootstrap)
    → Different req.participants
    → new_dkg_bootstrap mac c req ≡ ok b
    → (c.session_secret ≢ [])
      × IsSymmetric b.pairwise_seeds
      × PairsShare
          (λ left right. derive_seed mac c req.session_id req.key_name (pair_label left right))
          b.pairwise_seeds
          req.participants
new_dkg_bootstrap-PairsShare mac c req b d e =
    let seed_of : Text → Text → Text =
      λ left right. derive_seed mac c req.session_id req.key_name (pair_label left right) in
    let (secret, seeds) = made mac c req b e in
    (
      secret,
      subst IsSymmetric (sym seeds)
          (pair_all-IsSymmetric seed_of req.participants (λ l r. none) (λ l r. refl)),
      subst (λ m. PairsShare seed_of m req.participants) (sym seeds)
          (pair_all-PairsShare seed_of req.participants (λ l r. none) d),
    )
