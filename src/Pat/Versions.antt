-- ===== src/Pat/Versions.antt =====
-- The versions of a key: distinct when they are collected, and the same when they are sorted.
use mathlib.Core.List.{Memᴰ}
use orbitport.Base.{
  ◌≡◌, ◌≢◌, refl, sym, ap, subst, true, false, List, [], ◌∷◌, arith, Bool-cases, inl, inr,
  Option-cases,
}
use orbitport.Base.Int.{ℤ, pos, negsuc}
use orbitport.Base.All.{All}
use orbitport.Text.{Text, is_empty}
use orbitport.Text.Number.{atoi}
use orbitport.Pat.Transit.{
  int_eq, set_version, collect_versions, int_le, insert_version, sort_versions,
}

abbrev pub Versions : Type 0
Versions = List (ℤ × Text)

-- No two entries have the same version.
abbrev pub Distinct : Versions → Type 0
Distinct [] = Unit
Distinct (e ∷ m) = All (λ f. f.0 ≢ e.0) m × Distinct m

int_eq→≡ : (m n : ℤ) → int_eq m n ≡ true → m ≡ n
unfolding int_eq
int_eq→≡ (pos m) (pos n) h = let same : m ≡ n = ground arith in ap pos same
int_eq→≡ (negsuc m) (negsuc n) h = let same : m ≡ n = ground arith in ap negsuc same
int_eq→≡ (pos m) (negsuc n) h = cc
int_eq→≡ (negsuc m) (pos n) h = cc

int_eq→≢ : (m n : ℤ) → int_eq m n ≡ false → m ≢ n
unfolding int_eq
int_eq→≢ (pos m) (pos n) h e = let same : m ≡ n = cc in ground arith
int_eq→≢ (negsuc m) (negsuc n) h e = let same : m ≡ n = cc in ground arith
int_eq→≢ (pos m) (negsuc n) h e = cc
int_eq→≢ (negsuc m) (pos n) h e = cc

set_version-All :
    (P : ℤ × Text → Type 0) (v : ℤ) (pem : Text) (m : Versions)
    → P (v, pem)
    → All P m
    → All P (set_version v pem m)
unfolding set_version
set_version-All P v pem [] p h = (p, tt)
set_version-All P v pem ((w, q) ∷ m) p (d, h) = elim (Bool-cases (int_eq w v)) [
  | inl same ↦ rw (same) (p, h)
  | inr other ↦ rw (other) (d, set_version-All P v pem m p h)
]

set_version-Distinct :
    (v : ℤ) (pem : Text) (m : Versions) → Distinct m → Distinct (set_version v pem m)
unfolding set_version
set_version-Distinct v pem [] h = (tt, tt)
set_version-Distinct v pem ((w, q) ∷ m) (d, h) = elim (Bool-cases (int_eq w v)) [
  | inl same ↦ rw (same) (subst (λ u. All (λ f. f.0 ≢ u) m) (int_eq→≡ w v same) d, h)
  | inr other ↦ rw (other) (
    set_version-All (λ f. f.0 ≢ w) v pem m (λ e. int_eq→≢ w v other (sym e)) d,
    set_version-Distinct v pem m h,
  )
]

pub collect_versions-Distinct :
    (raw : List (Text × Text)) (found : Versions)
    → Distinct found
    → Distinct (collect_versions raw found)
unfolding collect_versions
collect_versions-Distinct [] found h = h
collect_versions-Distinct ((name, pem) ∷ raw) found h = elim (Option-cases (atoi name)) [
  | inl other ↦ rw (other, collect_versions) (collect_versions-Distinct raw found h)
  | inr (v, e) ↦ elim (Bool-cases (is_empty pem)) [
    | inl empty ↦ rw (e, empty, collect_versions) (collect_versions-Distinct raw found h)
    | inr full ↦
        rw (e, full, collect_versions)
          (collect_versions-Distinct raw (set_version v pem found)
            (set_version-Distinct v pem found h))
  ]
]

insert_version-All :
    (P : ℤ × Text → Type 0) (e : ℤ × Text) (m : Versions)
    → P e
    → All P m
    → All P (insert_version e m)
unfolding insert_version
insert_version-All P e [] p h = (p, tt)
insert_version-All P e (f ∷ m) p (q, h) = elim (Bool-cases (int_le (e.0) (f.0))) [
  | inl first ↦ rw (first) (p, (q, h))
  | inr later ↦ rw (later) (q, insert_version-All P e m p h)
]

sort_versions-All : (P : ℤ × Text → Type 0) (m : Versions) → All P m → All P (sort_versions m)
unfolding sort_versions
sort_versions-All P [] h = tt
sort_versions-All P (e ∷ m) (p, h) =
    insert_version-All P e (sort_versions m) p (sort_versions-All P m h)

insert_version-Distinct :
    (e : ℤ × Text) (m : Versions)
    → All (λ f. f.0 ≢ e.0) m
    → Distinct m
    → Distinct (insert_version e m)
unfolding insert_version
insert_version-Distinct e [] d h = (tt, tt)
insert_version-Distinct e (f ∷ m) (d, ds) (n, h) = elim (Bool-cases (int_le (e.0) (f.0))) [
  | inl first ↦ rw (first) ((d, ds), (n, h))
  | inr later ↦
      rw (later) (
        insert_version-All (λ g. g.0 ≢ f.0) e m (λ q. d (sym q)) n,
        insert_version-Distinct e m ds h,
      )
]

pub sort_versions-Distinct : (m : Versions) → Distinct m → Distinct (sort_versions m)
unfolding sort_versions
sort_versions-Distinct [] h = tt
sort_versions-Distinct (e ∷ m) (d, h) =
    insert_version-Distinct e (sort_versions m) (sort_versions-All (λ f. f.0 ≢ e.0) m d)
      (sort_versions-Distinct m h)

insert_version-head : (e : ℤ × Text) (m : Versions) → Memᴰ e (insert_version e m)
unfolding insert_version
insert_version-head e [] = Memᴰ.head refl
insert_version-head e (f ∷ m) = elim (Bool-cases (int_le (e.0) (f.0))) [
  | inl first ↦ rw (first) (Memᴰ.head refl)
  | inr later ↦ rw (later) (Memᴰ.tail (insert_version-head e m))
]

insert_version-tail : (e g : ℤ × Text) (m : Versions) → Memᴰ g m → Memᴰ g (insert_version e m)
unfolding insert_version
insert_version-tail e g [] i = elim i [ ]
insert_version-tail e g (f ∷ m) (Memᴰ.head q) = elim (Bool-cases (int_le (e.0) (f.0))) [
  | inl first ↦ rw (first) (Memᴰ.tail (Memᴰ.head q))
  | inr later ↦ rw (later) (Memᴰ.head q)
]
insert_version-tail e g (f ∷ m) (Memᴰ.tail i) = elim (Bool-cases (int_le (e.0) (f.0))) [
  | inl first ↦ rw (first) (Memᴰ.tail (Memᴰ.tail i))
  | inr later ↦ rw (later) (Memᴰ.tail (insert_version-tail e g m i))
]

pub Memᴰ-sort_versions : (g : ℤ × Text) (m : Versions) → Memᴰ g m → Memᴰ g (sort_versions m)
unfolding sort_versions
Memᴰ-sort_versions g [] i = elim i [ ]
Memᴰ-sort_versions g (e ∷ m) (Memᴰ.head q) =
    subst (λ f. Memᴰ f (insert_version e (sort_versions m))) (sym q)
      (insert_version-head e (sort_versions m))
Memᴰ-sort_versions g (e ∷ m) (Memᴰ.tail i) =
    insert_version-tail e g (sort_versions m) (Memᴰ-sort_versions g m i)
