-- ===== src/Threshold/Coordinate/Agreement.antt =====
-- The last check of a key generation: the nodes have completed, and agree on one public key.
use orbitport.Base.{ℕ, ◌≡◌, ◌≢◌, refl, sym, ap, ◌∙◌, subst, true, false, [], ◌∷◌, arith, ◌↔◌}
use orbitport.Base.All.{All}
use orbitport.Base.Result.{ok}
use orbitport.Text.{Text, text_eq, is_empty, lit}
use orbitport.Text.Equal.{text_eq_iff}
use orbitport.Threshold.Session.{DkgStatus}
use orbitport.Threshold.Coordinate.{Outputs, agree}

-- The node has completed with this public key.
abbrev pub CompletedWith : Text → Text × DkgStatus → Type 0
CompletedWith key (id, s) = (s.status ≡ lit "dkg_completed") × (s.public_key ≡ key)

-- The tests that the first node has passed, with no key found so far.
agree-first :
    (k id : Text) (s : DkgStatus) (nodes : Outputs)
    → agree [] ((id, s) ∷ nodes) ≡ ok k
    → (text_eq s.status (lit "dkg_completed") ≡ true)
      × (is_empty s.public_key ≡ false)
      × (agree s.public_key nodes ≡ ok k)
unfolding agree
agree-first k id s nodes e = ground arith

-- The tests that a later node has passed.
agree-later :
    (c : ℕ) (t k id : Text) (s : DkgStatus) (nodes : Outputs)
    → agree (c ∷ t) ((id, s) ∷ nodes) ≡ ok k
    → (text_eq s.status (lit "dkg_completed") ≡ true)
      × (text_eq s.public_key (c ∷ t) ≡ true)
      × (agree (c ∷ t) nodes ≡ ok k)
unfolding agree
agree-later c t k id s nodes e = ground arith

agree-found :
    (c : ℕ) (t k : Text) (nodes : Outputs)
    → agree (c ∷ t) nodes ≡ ok k
    → (k ≡ c ∷ t) × All (CompletedWith k) nodes
agree-found c t k [] e = unfold agree in (cc, tt)
agree-found c t k ((id, s) ∷ nodes) e =
    let (completed, same, rest) = agree-later c t k id s nodes e in
    let (key, later) = agree-found c t k nodes rest in
    (
      key,
      (
        (
          (text_eq_iff s.status (lit "dkg_completed")).0 completed,
          (text_eq_iff s.public_key (c ∷ t)).0 same ∙ sym key,
        ),
        later,
      ),
    )

non_empty : (s : Text) → is_empty s ≡ false → (c : ℕ) × (t : Text) × (s ≡ c ∷ t)
non_empty [] h = cc
non_empty (c ∷ t) h = (c, t, refl)

-- A key that the check finds is one that all nodes have completed with.
pub agree-CompletedWith :
    (k : Text) (n : Text × DkgStatus) (nodes : Outputs)
    → agree [] (n ∷ nodes) ≡ ok k
    → (k ≢ []) × All (CompletedWith k) (n ∷ nodes)
agree-CompletedWith k (id, s) nodes e =
    let (completed, some_key, rest) = agree-first k id s nodes e in
    let (c, t, spelled) = non_empty s.public_key some_key in
    let (key, later) = agree-found c t k nodes (subst (λ u. agree u nodes ≡ ok k) spelled rest) in
    (
      (λ none. cc),
      (((text_eq_iff s.status (lit "dkg_completed")).0 completed, spelled ∙ sym key), later),
    )

agree-accepts :
    (c : ℕ) (t : Text) (nodes : Outputs)
    → All (CompletedWith (c ∷ t)) nodes
    → agree (c ∷ t) nodes ≡ ok (c ∷ t)
unfolding agree
agree-accepts c t [] all = refl
agree-accepts c t ((id, s) ∷ nodes) all =
    let completed : text_eq s.status (lit "dkg_completed") ≡ true =
      (text_eq_iff s.status (lit "dkg_completed")).1 all.0.0 in
    let same : text_eq s.public_key (c ∷ t) ≡ true = (text_eq_iff s.public_key (c ∷ t)).1 all.0.1 in
    let some_key : is_empty s.public_key ≡ false = ap is_empty all.0.1 in
    rw (completed, same, some_key) (agree-accepts c t nodes all.1)

agree-starts :
    (k : Text) (n : Text × DkgStatus) (nodes : Outputs)
    → (k ≢ []) × All (CompletedWith k) (n ∷ nodes)
    → agree [] (n ∷ nodes) ≡ ok k
unfolding agree
agree-starts [] n nodes h = absurd (h.0 refl)
agree-starts (c ∷ t) (id, s) nodes h =
    let completed : text_eq s.status (lit "dkg_completed") ≡ true =
      (text_eq_iff s.status (lit "dkg_completed")).1 h.1.0.0 in
    let some_key : is_empty s.public_key ≡ false = ap is_empty h.1.0.1 in
    rw (completed, some_key)
      (subst (λ u. agree u nodes ≡ ok (c ∷ t)) (sym h.1.0.1) (agree-accepts c t nodes h.1.1))

-- The check succeeds with a key exactly when there is a node, the key is not empty, and every node
-- has completed with it; so the order of the nodes does not matter.
pub agree_iff :
    (k : Text) (n : Text × DkgStatus) (nodes : Outputs)
    → (agree [] (n ∷ nodes) ≡ ok k) ↔ ((k ≢ []) × All (CompletedWith k) (n ∷ nodes))
agree_iff k n nodes = (agree-CompletedWith k n nodes, agree-starts k n nodes)
