-- ===== src/Beacon/Registry/Loading.antt =====
-- What the plugin does with the registry when it starts: it reads it, and writes only where the lookup
-- showed that nothing is lost by it.
use orbitport.Base.{
  ◌≡◌, refl, sym, ◌∙◌, subst, List, [], ◌∷◌, none, some, Bool-cases, inl, inr, Option-cases, ◌⊎◌,
}
use orbitport.Base.Result.{Result, ok, err, Result-cases}
use orbitport.Base.Traced.{◌>>=◌, return, step_ok, step_err}
use orbitport.Text.{Text, is_empty}
use orbitport.Beacon.Types.{BeaconMetadata, BeaconPayload}
use orbitport.Beacon.Ipfs.{
  registry, Call, add, publish, World, BeaconError, M, registry_required, add_failed,
  publish_failed,
}
use orbitport.Beacon.Registry.Lookup.{
  OnlyReads, OnlyReads-refl, Shown, IsSound, query_loop-OnlyReads, query_loop-IsSound,
}
use orbitport.Beacon.Registry.{
  Query, missing_key, unpublished_key, loaded, Config, find_beacon, upsert_beacon, new_metadata,
  genesis, query_loop, create_beacon, publish_registry, create_in, resume_or_create, load_registry,
}

-- the beacons that a lookup has shown
abbrev pub known : Query → List BeaconMetadata
known missing_key = []
known unpublished_key = []
known (loaded beacons) = beacons

module _ (w : World) (cfg : Config) (h : List Call) where
  -- The lookup has ended, and has shown no beacon of the configured name.
  pub record Fresh (q : Query) (k : List Call) : Type 0 where
    pub found : Shown w cfg.registry_alias q k
    pub absent : find_beacon cfg.beacon_name (known q) ≡ none
    pub reads : OnlyReads h k

  -- the calls of a beacon's creation, the first one last
  abbrev pub founding : BeaconPayload → Text → Text → BeaconMetadata → List Call → List Call
  founding payload temp final meta k =
      publish final cfg.beacon_name
      ∷ add (genesis payload (some meta))
      ∷ publish temp cfg.beacon_name
      ∷ add (genesis payload none)
      ∷ k

  -- the calls of a creation, with the registry put behind them
  abbrev pub creating :
      Query → BeaconPayload → Text → Text → Text → BeaconMetadata → List Call → List Call
  creating q payload temp final cid meta k =
      publish cid cfg.registry_alias
      ∷ add (registry (upsert_beacon meta (known q)))
      ∷ founding payload temp final meta k

  -- The answers behind the creation of a beacon: what is published is what the addition just before it
  -- returned, the temporary block first and the final one last, and the public key is the name that the
  -- first publication returned.
  pub record Founded (k : List Call) (payload : BeaconPayload) (temp public_key final : Text)
      : Type 0 where
    pub sequence : payload.sequence ≡ 0
    pub values : payload.ctrng ≡ []
    pub temp_added : w.add_reply (add (genesis payload none) ∷ k) ≡ ok temp
    pub temp_published :
        w.publish_reply (publish temp cfg.beacon_name ∷ add (genesis payload none) ∷ k)
        ≡ ok public_key
    pub final_added :
        w.add_reply (
          add (genesis payload (some (new_metadata cfg public_key)))
          ∷ publish temp cfg.beacon_name
          ∷ add (genesis payload none)
          ∷ k)
        ≡ ok final
    pub name : Text
    pub final_published :
        w.publish_reply (founding payload temp final (new_metadata cfg public_key) k) ≡ ok name

  -- The answers behind the publication of the registry.
  pub record Recorded (beacons : List BeaconMetadata) (cid : Text) (k : List Call) : Type 0 where
    pub added : w.add_reply (add (registry beacons) ∷ k) ≡ ok cid
    pub name : Text
    pub published :
        w.publish_reply (publish cid cfg.registry_alias ∷ add (registry beacons) ∷ k) ≡ ok name

  -- How the registry is loaded: refused or resumed with nothing written; or, for a beacon that the
  -- registry was shown to lack, broken off or created.
  pub data Ends : Result BeaconError (List BeaconMetadata) × List Call → Type 0 where
    refused : (x : BeaconError) (k : List Call) → OnlyReads h k → Ends (err x, k)
    resumed :
        (beacons : List BeaconMetadata) (meta : BeaconMetadata) (k : List Call)
        → Shown w cfg.registry_alias (loaded beacons) k
        → find_beacon cfg.beacon_name beacons ≡ some meta
        → OnlyReads h k
        → Ends (ok (meta ∷ []), k)
    broken_off : (q : Query) (x : BeaconError) (k k' : List Call) → Fresh q k → Ends (err x, k')
    created :
        (q : Query) (payload : BeaconPayload) (temp public_key final cid : Text) (k : List Call)
        → Fresh q k
        → Founded k payload temp public_key final
        → Recorded
            (upsert_beacon (new_metadata cfg public_key) (known q))
            cid
            (founding payload temp final (new_metadata cfg public_key) k)
        → Ends (
          ok (new_metadata cfg public_key ∷ []),
          creating q payload temp final cid (new_metadata cfg public_key) k,
        )

  data CreateEnds (k : List Call) : Type 0 where
    fails : (x : BeaconError) (k' : List Call) → create_beacon w cfg k ≡ (err x, k') → CreateEnds k
    makes :
        (payload : BeaconPayload) (temp public_key final : Text)
        → Founded k payload temp public_key final
        → create_beacon w cfg k ≡ (
          ok (new_metadata cfg public_key),
          founding payload temp final (new_metadata cfg public_key) k,
        )
        → CreateEnds k

  create_beacon-CreateEnds : (k : List Call) → CreateEnds k
  unfolding create_beacon
  create_beacon-CreateEnds k =
      let payload : BeaconPayload = record { sequence = 0; timestamp = w.now k; ctrng = [] } in
      let k1 : List Call = add (genesis payload none) ∷ k in
      elim (Result-cases (w.add_reply k1)) [
        | inr (x, e1) ↦ fails add_failed k1 (rw (e1, create_beacon) refl)
        | inl (temp, e1) ↦
            let k2 : List Call = publish temp cfg.beacon_name ∷ k1 in
            elim (Result-cases (w.publish_reply k2)) [
              | inr (x, e2) ↦ fails publish_failed k2 (rw (e1, e2, create_beacon) refl)
              | inl (key, e2) ↦
                  let k3 : List Call = add (genesis payload (some (new_metadata cfg key))) ∷ k2 in
                  elim (Result-cases (w.add_reply k3)) [
                    | inr (x, e3) ↦ fails add_failed k3 (rw (e1, e2, e3, create_beacon) refl)
                    | inl (final, e3) ↦
                        elim (Result-cases (w.publish_reply (publish final cfg.beacon_name ∷ k3))) [
                          | inr (x, e4) ↦
                              fails publish_failed (publish final cfg.beacon_name ∷ k3)
                                (rw (e1, e2, e3, e4, create_beacon) refl)
                          | inl (name, e4) ↦
                              makes payload temp key final
                                (record {
                                  sequence = refl;
                                  values = refl;
                                  temp_added = e1;
                                  temp_published = e2;
                                  final_added = e3;
                                  name = name;
                                  final_published = e4;
                                })
                                (rw (e1, e2, e3, e4, create_beacon) refl)
                        ]
                  ]
            ]
      ]

  publish_registry-cases :
      (beacons : List BeaconMetadata) (k : List Call)
      → ((x : BeaconError) × (k' : List Call) × (publish_registry w cfg.registry_alias beacons k
            ≡ (err x, k')))
        ⊎ ((cid : Text) × Recorded beacons cid k
            × (publish_registry w cfg.registry_alias beacons k
                ≡ (ok cid, publish cid cfg.registry_alias ∷ add (registry beacons) ∷ k)))
  unfolding publish_registry
  publish_registry-cases beacons k =
      let k1 : List Call = add (registry beacons) ∷ k in
      elim (Result-cases (w.add_reply k1)) [
        | inr (x, e1) ↦ inl (add_failed, k1, rw (e1, publish_registry) refl)
        | inl (cid, e1) ↦
            elim (Result-cases (w.publish_reply (publish cid cfg.registry_alias ∷ k1))) [
              | inr (x, e2) ↦ inl (
                publish_failed,
                publish cid cfg.registry_alias ∷ k1,
                rw (e1, e2, publish_registry) refl,
              )
              | inl (name, e2) ↦ inr (
                cid,
                record { added = e1; name = name; published = e2 },
                rw (e1, e2, publish_registry) refl,
              )
            ]
      ]

  abbrev record_in : List BeaconMetadata → BeaconMetadata → M (List BeaconMetadata)
  record_in beacons meta =
      publish_registry w cfg.registry_alias (upsert_beacon meta beacons) >>= λ cid.
      return (meta ∷ [])

  create_in-Ends : (q : Query) (k : List Call) → Fresh q k → Ends (create_in w cfg (known q) k)
  unfolding create_in
  create_in-Ends q k f = elim (create_beacon-CreateEnds k) [
    | fails x k' e ↦
        subst Ends (sym (step_err (create_beacon w cfg) (record_in (known q)) e))
          (broken_off q x k k' f)
    | makes payload temp key final founded e ↦
        let meta : BeaconMetadata = new_metadata cfg key in
        let made = step_ok (create_beacon w cfg) (record_in (known q)) e in
        elim (publish_registry-cases (upsert_beacon meta (known q))
          (founding payload temp final meta k)) [
            | inl (x, k', p) ↦
                subst Ends
                  (sym (
                    made
                    ∙ step_err
                        (publish_registry w cfg.registry_alias (upsert_beacon meta (known q)))
                        (λ cid. return (meta ∷ [])) p))
                  (broken_off q x k k' f)
            | inr (cid, recorded, p) ↦
                subst Ends
                  (sym (
                    made
                    ∙ step_ok (publish_registry w cfg.registry_alias (upsert_beacon meta (known q)))
                        (λ cid. return (meta ∷ [])) p))
                  (created q payload temp key final cid k f founded recorded)
          ]
  ]

  resume_or_create-Ends :
      (q : Query) (k : List Call)
      → Shown w cfg.registry_alias q k
      → OnlyReads h k
      → Ends (resume_or_create w cfg q k)
  unfolding resume_or_create find_beacon
  resume_or_create-Ends missing_key k e r =
      create_in-Ends missing_key k (record { found = e; absent = refl; reads = r })
  resume_or_create-Ends unpublished_key k e r =
      create_in-Ends unpublished_key k (record { found = e; absent = refl; reads = r })
  resume_or_create-Ends (loaded beacons) k e r =
      elim (Option-cases (find_beacon cfg.beacon_name beacons)) [
        | inl absent ↦
            rw (absent, resume_or_create)
              (create_in-Ends (loaded beacons) k (record { found = e; absent = absent; reads = r }))
        | inr (meta, found) ↦ rw (found, resume_or_create) (resumed beacons meta k e found r)
      ]

  looked-Ends :
      (r : Result BeaconError Query × List Call)
      → IsSound w cfg.registry_alias r
      → OnlyReads h r.1
      → Ends (elim (r.0) [ ok q ↦ resume_or_create w cfg q r.1 | err x ↦ (err x, r.1) ])
  looked-Ends (ok q, k) e r = resume_or_create-Ends q k e r
  looked-Ends (err x, k) e r = refused x k r

  -- However the registry is loaded, nothing is added or published unless the lookup, with its retries,
  -- has ended with an answer that shows no beacon of the configured name, which is that the key is
  -- missing, that no head is published for it, or that the head was read as a registry without the
  -- beacon: a failed lookup changes nothing, and a beacon that is there is resumed as it is. A creation
  -- that succeeds has published under the beacon's name the CID that the addition of its temporary
  -- block returned, then the CID that the addition of its final block returned, whose metadata holds
  -- the name that the first publication returned, and last, under the registry's name, the CID that
  -- the addition of the registry returned, which is the one that was loaded with the new beacon put
  -- in. Both blocks have the sequence number 0 and no values.
  pub load_registry-Ends : Ends (load_registry w cfg h)
  unfolding load_registry
  load_registry-Ends = elim (Bool-cases (is_empty cfg.registry_alias)) [
    | inl empty ↦ rw (empty) (refused registry_required h (OnlyReads-refl h))
    | inr named ↦ rw (named) (
        looked-Ends (query_loop w 4 2 cfg.registry_alias h)
          (query_loop-IsSound w cfg.registry_alias 4 2 h)
          (query_loop-OnlyReads w 4 2 cfg.registry_alias h))
  ]
