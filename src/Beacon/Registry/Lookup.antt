-- ===== src/Beacon/Registry/Lookup.antt =====
-- What a lookup of the registry does, and what its answer shows.
use orbitport.Base.{
  ℕ, zero, suc, ◌*◌, ◌≡◌, refl, sym, ap, ◌∙◌, true, List, [], ◌∷◌, ◌++◌, none, some, Bool-cases,
  inl, inr, Option-cases, append_assoc,
}
use orbitport.Base.All.{All, All-append}
use orbitport.Base.Result.{Result, ok, err, Result-cases}
use orbitport.Text.{Text, is_empty}
use orbitport.Beacon.Types.{BeaconMetadata}
use orbitport.Beacon.Ipfs.{
  Call, key_info, get, add, publish, wait, trng, seeds, World, Head, not_found, unavailable,
  BeaconError,
}
use orbitport.Beacon.Registry.{
  Query, missing_key, unpublished_key, loaded, read_head, query_head, query_registry, query_loop,
}

-- The call changes nothing at the other side.
abbrev pub IsRead : Call → Type 0
IsRead (key_info n) = Unit
IsRead (get n) = Unit
IsRead (wait n) = Unit
IsRead (add c) = ⊥
IsRead (publish c n) = ⊥
IsRead trng = ⊥
IsRead (seeds n) = ⊥

-- Behind the earlier calls there are reads only.
pub record OnlyReads (h h' : List Call) : Type 0 where
  pub added : List Call
  pub whole : h' ≡ added ++ h
  pub reads : All IsRead added

pub OnlyReads-refl : (h : List Call) → OnlyReads h h
OnlyReads-refl h = record { added = []; whole = refl; reads = tt }

OnlyReads-one : (c : Call) (h : List Call) → IsRead c → OnlyReads h (c ∷ h)
OnlyReads-one c h r = record { added = c ∷ []; whole = refl; reads = (r, tt) }

OnlyReads-trans : (h k l : List Call) → OnlyReads h k → OnlyReads k l → OnlyReads h l
OnlyReads-trans h k l a b = record {
  added = b.added ++ a.added;
  whole = b.whole ∙ ap (λ t. b.added ++ t) a.whole ∙ sym (append_assoc b.added a.added h);
  reads = All-append IsRead b.added a.added b.reads a.reads;
}

module _ (w : World) where
  query_registry-OnlyReads :
      (alias : Text) (h : List Call) → OnlyReads h (query_registry w alias h).1
  unfolding query_registry query_head
  query_registry-OnlyReads alias h =
      let asked = OnlyReads-one (key_info alias) h tt in
      elim (Result-cases (w.key_info_reply (key_info alias ∷ h))) [
        | inr (x, e) ↦ rw (e) asked
        | inl (none, e) ↦ rw (e) asked
        | inl (some n, e) ↦ elim (Bool-cases (is_empty n)) [
          | inl empty ↦ rw (e, empty) asked
          | inr named ↦
              rw (e, named)
                (OnlyReads-trans h (key_info alias ∷ h) (get n ∷ key_info alias ∷ h) asked
                  (OnlyReads-one (get n) (key_info alias ∷ h) tt))
        ]
      ]

  pub query_loop-OnlyReads :
      (left pause : ℕ) (alias : Text) (h : List Call)
      → OnlyReads h (query_loop w left pause alias h).1
  unfolding query_loop
  query_loop-OnlyReads zero pause alias h =
      let once = query_registry-OnlyReads alias h in
      elim (Result-cases (query_registry w alias h).0) [
        | inl (q, e) ↦ rw (e, query_loop) once
        | inr (x, e) ↦ rw (e, query_loop) once
      ]
  query_loop-OnlyReads (suc left) pause alias h =
      let k = (query_registry w alias h).1 in
      let once = query_registry-OnlyReads alias h in
      let paused = OnlyReads-trans h k (wait pause ∷ k) once (OnlyReads-one (wait pause) k tt) in
      elim (Result-cases (query_registry w alias h).0) [
        | inl (q, e) ↦ rw (e, query_loop) once
        | inr (x, e) ↦ elim (Bool-cases (w.fires (wait pause ∷ k))) [
          | inr ended ↦ rw (e, ended, query_loop) paused
          | inl fired ↦
              rw (e, fired, query_loop)
                (OnlyReads-trans h (wait pause ∷ k) _ paused
                  (query_loop-OnlyReads left (pause * 2) alias (wait pause ∷ k)))
        ]
      ]

module _ (w : World) (alias : Text) where
  -- What the answer of a lookup stands on: the key was not there, no head was published for it, or the
  -- head was read as a registry. These were the last calls.
  pub data Shown : Query → List Call → Type 0 where
    no_key :
        (j : List Call)
        → w.key_info_reply (key_info alias ∷ j) ≡ ok none
        → Shown missing_key (key_info alias ∷ j)
    no_name :
        (j : List Call) (n : Text)
        → w.key_info_reply (key_info alias ∷ j) ≡ ok (some n)
        → is_empty n ≡ true
        → Shown missing_key (key_info alias ∷ j)
    no_head :
        (j : List Call) (n : Text)
        → w.key_info_reply (key_info alias ∷ j) ≡ ok (some n)
        → w.get_reply (get n ∷ key_info alias ∷ j) ≡ err not_found
        → Shown unpublished_key (get n ∷ key_info alias ∷ j)
    has_head :
        (j : List Call) (n : Text) (head : Head) (beacons : List BeaconMetadata)
        → w.key_info_reply (key_info alias ∷ j) ≡ ok (some n)
        → w.get_reply (get n ∷ key_info alias ∷ j) ≡ ok head
        → head.as_registry ≡ some beacons
        → Shown (loaded beacons) (get n ∷ key_info alias ∷ j)

  abbrev pub IsSound : Result BeaconError Query × List Call → Type 0
  IsSound (ok q, k) = Shown q k
  IsSound (err x, k) = Unit

  query_registry-IsSound : (h : List Call) → IsSound (query_registry w alias h)
  unfolding query_registry query_head read_head
  query_registry-IsSound h = elim (Result-cases (w.key_info_reply (key_info alias ∷ h))) [
    | inr (x, e) ↦ rw (e) tt
    | inl (none, e) ↦ rw (e) (no_key h e)
    | inl (some n, e) ↦ elim (Bool-cases (is_empty n)) [
      | inl empty ↦ rw (e, empty) (no_name h n e empty)
      | inr named ↦ elim (Result-cases (w.get_reply (get n ∷ key_info alias ∷ h))) [
        | inr (not_found, g) ↦ rw (e, named, g) (no_head h n e g)
        | inr (unavailable, g) ↦ rw (e, named, g) tt
        | inl (head, g) ↦ elim (Option-cases head.as_registry) [
          | inl other ↦ rw (e, named, g, other) tt
          | inr (beacons, r) ↦ rw (e, named, g, r) (has_head h n head beacons e g r)
        ]
      ]
    ]
  ]

  -- a try of the lookup, with what comes after one that failed
  tried-IsSound :
      (r after : Result BeaconError Query × List Call)
      → IsSound r
      → IsSound after
      → IsSound (elim (r.0) [ ok q ↦ (ok q, r.1) | err e ↦ after ])
  tried-IsSound (ok q, k) after a b = a
  tried-IsSound (err x, k) after a b = b

  pub query_loop-IsSound :
      (left pause : ℕ) (h : List Call) → IsSound (query_loop w left pause alias h)
  unfolding query_loop
  query_loop-IsSound zero pause h =
      tried-IsSound (query_registry w alias h) _ (query_registry-IsSound h) tt
  query_loop-IsSound (suc left) pause h =
      let waited : List Call = wait pause ∷ (query_registry w alias h).1 in
      let again = query_loop-IsSound left (pause * 2) waited in
      tried-IsSound (query_registry w alias h) _ (query_registry-IsSound h)
        (elim (Bool-cases (w.fires waited)) [
          | inl fired ↦ rw (fired) again
          | inr ended ↦ rw (ended) tt
        ])
