-- ===== src/Threshold/Request/Sorting.antt =====
-- Participants in the order of their party indexes, no two alike.
use orbitport.Base.{
  ℕ, zero, suc, ◌+◌, ◌<◌, ◌≤◌, ◌≡◌, ◌≢◌, refl, sym, ap, ap₂, subst, false, List, [], ◌∷◌, ◌++◌,
  arith, ltb, length, Bool-cases, inl, inr, map,
}
use orbitport.Base.All.{All, All-append, All-map}
use orbitport.Text.{text_eq}
use orbitport.Text.Equal.{text_eq→≢}
use orbitport.Threshold.Request.{
  DkgParticipant, seen_id, seen_index, insert_by_index, sort_by_index,
}

-- No two participants share a node id, or a party index.
abbrev pub Different : List DkgParticipant → Type 0
Different [] = Unit
Different (p ∷ ps) =
    All (λ q. (q.node_id ≢ p.node_id) × (q.party_index ≢ p.party_index)) ps × Different ps

insert-length :
    (p : DkgParticipant) (ps : List DkgParticipant)
    → length (insert_by_index p ps) ≡ suc (length ps)
unfolding insert_by_index
insert-length p [] = refl
insert-length p (q ∷ qs) = ground (arith, insert-length p qs)

pub sort-length : (ps : List DkgParticipant) → length (sort_by_index ps) ≡ length ps
unfolding sort_by_index
sort-length [] = refl
sort-length (p ∷ ps) = omega (arith, insert-length p (sort_by_index ps), sort-length ps)

module _ {κ} (P : DkgParticipant → Type κ) where
  insert-All :
      (p : DkgParticipant) (ps : List DkgParticipant)
      → P p
      → All P ps
      → All P (insert_by_index p ps)
  unfolding insert_by_index
  insert-All p [] h a = (h, tt)
  insert-All p (q ∷ qs) h a = elim (Bool-cases (ltb q.party_index p.party_index)) [
    | inl e ↦ rw e (a.0, insert-All p qs h a.1)
    | inr e ↦ rw e (h, a)
  ]

  pub sort-All : (ps : List DkgParticipant) → All P ps → All P (sort_by_index ps)
  unfolding sort_by_index
  sort-All [] a = tt
  sort-All (p ∷ ps) a = insert-All p (sort_by_index ps) a.0 (sort-All ps a.1)

-- Two participants that no list of participants may hold together.
abbrev Unlike : DkgParticipant → DkgParticipant → Type 0
Unlike p q = (q.node_id ≢ p.node_id) × (q.party_index ≢ p.party_index)

Unlike-sym : (p q : DkgParticipant) → Unlike p q → Unlike q p
Unlike-sym p q u = (λ e. u.0 (sym e), λ e. u.1 (sym e))

pub seen-Unlike :
    (q : DkgParticipant) (seen : List DkgParticipant)
    → seen_id q.node_id seen ≡ false
    → seen_index q.party_index seen ≡ false
    → All (λ p. Unlike q p) seen
unfolding seen_id seen_index
seen-Unlike q [] h k = tt
seen-Unlike q (p ∷ seen) h k =
    let other : text_eq p.node_id q.node_id ≡ false = ground arith in
    (
      (text_eq→≢ p.node_id q.node_id other, ground arith),
      seen-Unlike q seen (ground arith) (ground arith),
    )

pub Different-snoc :
    (ps : List DkgParticipant) (q : DkgParticipant)
    → Different ps
    → All (λ p. Unlike q p) ps
    → Different (ps ++ q ∷ [])
Different-snoc [] q d u = (tt, tt)
Different-snoc (p ∷ ps) q d u = (
  All-append (λ r. Unlike p r) ps (q ∷ []) d.0 (Unlike-sym q p u.0, tt),
  Different-snoc ps q d.1 u.1,
)

insert-Different :
    (p : DkgParticipant) (ps : List DkgParticipant)
    → All (λ q. Unlike p q) ps
    → Different ps
    → Different (insert_by_index p ps)
unfolding insert_by_index
insert-Different p [] u d = (tt, tt)
insert-Different p (q ∷ qs) u d = elim (Bool-cases (ltb q.party_index p.party_index)) [
  | inl e ↦
      rw e
        (insert-All (λ r. Unlike q r) p qs (Unlike-sym p q u.0) d.0, insert-Different p qs u.1 d.1)
  | inr e ↦ rw e (u, d)
]

pub sort-Different : (ps : List DkgParticipant) → Different ps → Different (sort_by_index ps)
unfolding sort_by_index
sort-Different [] d = tt
sort-Different (p ∷ ps) d =
    insert-Different p (sort_by_index ps) (sort-All (λ q. Unlike p q) ps d.0)
      (sort-Different ps d.1)

-- Party indexes that go up, from `lo` on.
abbrev Rising : ℕ → List DkgParticipant → Type 0
Rising lo [] = Unit
Rising lo (p ∷ ps) = (lo ≤ p.party_index) × Rising (suc p.party_index) ps

Rising-weaken : (lo lo' : ℕ) (ps : List DkgParticipant) → lo' ≤ lo → Rising lo ps → Rising lo' ps
Rising-weaken lo lo' [] h r = tt
Rising-weaken lo lo' (p ∷ ps) h r = (omega (arith, r.0), r.1)

insert-Rising :
    (lo : ℕ) (p : DkgParticipant) (ps : List DkgParticipant)
    → lo ≤ p.party_index
    → All (λ q. q.party_index ≢ p.party_index) ps
    → Rising lo ps
    → Rising lo (insert_by_index p ps)
unfolding insert_by_index
insert-Rising lo p [] h ne r = (h, tt)
insert-Rising lo p (q ∷ qs) h ne r = elim (Bool-cases (ltb q.party_index p.party_index)) [
  | inl e ↦ rw e (r.0, insert-Rising (suc q.party_index) p qs (ground arith) ne.1 r.1)
  | inr e ↦
      let above : suc p.party_index ≤ q.party_index = ground (arith, ne.0) in rw e (h, (above, r.1))
]

pub sort-Rising : (ps : List DkgParticipant) → Different ps → Rising 0 (sort_by_index ps)
unfolding sort_by_index
sort-Rising [] d = tt
sort-Rising (p ∷ ps) d =
    insert-Rising 0 p (sort_by_index ps) (omega arith)
      (sort-All (λ q. q.party_index ≢ p.party_index) ps
        (All-map (λ q. (q.node_id ≢ p.node_id) × (q.party_index ≢ p.party_index))
          (λ q. q.party_index ≢ p.party_index) (λ q h. h.1) ps d.0))
      (sort-Rising ps d.1)

-- the numbers from `lo` on
pub count_from : ℕ → ℕ → List ℕ
count_from lo zero = []
count_from lo (suc n) = lo ∷ count_from (suc lo) n

-- A rising list needs as many numbers below the bound as it is long.
Rising-bound :
    (lo n : ℕ) (ps : List DkgParticipant)
    → lo ≤ n
    → All (λ p. p.party_index < n) ps
    → Rising lo ps
    → lo + length ps ≤ n
Rising-bound lo n [] h a r = omega arith
Rising-bound lo n (p ∷ ps) h a r =
    omega (arith, r.0, Rising-bound (suc p.party_index) n ps a.0 a.1 r.1)

-- One that fills all the numbers below the bound is these numbers.
pub Rising-count_from :
    (lo : ℕ) (ps : List DkgParticipant)
    → All (λ p. p.party_index < lo + length ps) ps
    → Rising lo ps
    → map (λ p. p.party_index) ps ≡ count_from lo (length ps)
unfolding count_from
Rising-count_from lo [] a r = refl
Rising-count_from lo (p ∷ ps) a r =
    let top : ℕ = lo + suc (length ps) in
    let first : p.party_index ≡ lo =
      omega (arith, r.0, Rising-bound (suc p.party_index) top ps a.0 a.1 r.1) in
    let below : All (λ q. q.party_index < suc lo + length ps) ps =
      All-map (λ q. q.party_index < top) (λ q. q.party_index < suc lo + length ps)
        (λ q h. omega arith) ps a.1 in
    ap₂ ◌∷◌ first
      (Rising-count_from (suc lo) ps below (subst (λ t. Rising t ps) (ap suc first) r.1))
