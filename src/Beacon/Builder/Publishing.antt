-- ===== src/Beacon/Builder/Publishing.antt =====
-- The ways one execution of a beacon ends.
use orbitport.Base.{
  ◌+◌, ◌%◌, ◌^◌, ◌≡◌, refl, sym, subst, true, false, List, [], ◌∷◌, none, some, Bool-cases, inl,
  inr, Option-cases, ◌⊎◌,
}
use orbitport.Base.Result.{Result, ok, err, Result-cases}
use orbitport.Base.Traced.{◌>>=◌, step_ok, step_err}
use orbitport.Text.{Text, is_empty}
use orbitport.MasterSeed.{derive_bulk_from_seed_hex}
use orbitport.Beacon.Types.{BeaconMetadata, BeaconPayload, Block}
use orbitport.Beacon.Ipfs.{
  Content, block, Call, get, add, publish, trng, seeds, World, Head, BeaconError, get_failed,
  add_failed, publish_failed, not_a_block, no_values, nil_dereference,
}
use orbitport.Beacon.Builder.{
  batch_of, batch_int, values_of, seed_of, is_canceled, fetch_ctrngs, load_ctrngs,
  load_last_beacon_block, append_block, execute_with, execute_beacon,
}

values_of-cases :
    {E : Type 0} (r : Result E (List Text)) → is_empty (values_of r) ≡ false → r ≡ ok (values_of r)
values_of-cases (ok vs) full = refl
values_of-cases (err e) full = cc

module _ (w : World) (meta : BeaconMetadata) (h : List Call) where
  abbrev asked : List Call
  asked = trng ∷ h

  abbrev pooled : List Call
  pooled = seeds (batch_of meta % 2 ^ 32) ∷ asked

  -- where the values came from, with the calls made for them
  pub data Sourced : List Text → List Call → Type 0 where
    derived :
        (seed : Text) (values : List Text)
        → seed_of (w.trng_reply asked) ≡ seed
        → is_empty seed ≡ false
        → derive_bulk_from_seed_hex seed (batch_int meta) ≡ ok values
        → Sourced values asked
    taken :
        (values : List Text)
        → is_canceled (w.trng_reply asked) ≡ false
        → is_empty (seed_of (w.trng_reply asked)) ≡ true
        → w.seeds_reply pooled ≡ ok values
        → Sourced values pooled

  -- the calls of the loader: the generator is asked, and the pool only after it
  abbrev pub IsLoading : List Call → Type 0
  IsLoading k = (k ≡ asked) ⊎ (k ≡ pooled)

  fetch_ctrngs-IsLoading : IsLoading (fetch_ctrngs w meta h).1
  unfolding fetch_ctrngs
  fetch_ctrngs-IsLoading = elim (Bool-cases (is_canceled (w.trng_reply asked))) [
    | inl stopped ↦ rw (stopped) (inl refl)
    | inr going ↦ elim (Bool-cases (is_empty (seed_of (w.trng_reply asked)))) [
      | inl unseeded ↦ rw (going, unseeded) (inr refl)
      | inr seeded ↦ rw (going, seeded) (inl refl)
    ]
  ]

  fetch_ctrngs-Sourced :
      is_empty (fetch_ctrngs w meta h).0 ≡ false
      → Sourced (fetch_ctrngs w meta h).0 (fetch_ctrngs w meta h).1
  unfolding fetch_ctrngs
  fetch_ctrngs-Sourced = elim (Bool-cases (is_canceled (w.trng_reply asked))) [
    | inl stopped ↦ rw (stopped) (λ full. cc)
    | inr going ↦ elim (Bool-cases (is_empty (seed_of (w.trng_reply asked)))) [
      | inl unseeded ↦
          rw (going, unseeded)
            (λ full. taken _ going unseeded (values_of-cases (w.seeds_reply pooled) full))
      | inr seeded ↦
          rw (going, seeded)
            (λ full. derived _ _ refl seeded (
              values_of-cases
                (derive_bulk_from_seed_hex (seed_of (w.trng_reply asked)) (batch_int meta)) full))
    ]
  ]

  -- what the loader delivers
  record Loads (r : List Text × List Call) : Type 0 where
    loading : IsLoading r.1
    source : is_empty r.0 ≡ false → Sourced r.0 r.1

  load_ctrngs-Loads : Loads (load_ctrngs w meta h)
  unfolding load_ctrngs
  load_ctrngs-Loads =
      let r = fetch_ctrngs w meta h in
      let nothing : Loads ([], r.1) = record {
        loading = fetch_ctrngs-IsLoading;
        source = λ full. cc;
      } in
      let all : Loads r = record {
        loading = fetch_ctrngs-IsLoading;
        source = fetch_ctrngs-Sourced;
      } in
      elim (Bool-cases (is_empty r.0)) [
        | inl empty ↦ rw (empty) nothing
        | inr full ↦ elim (Bool-cases (w.delivers r.1)) [
          | inl sent ↦ rw (full, sent) all
          | inr lost ↦ rw (full, lost) nothing
        ]
      ]

  -- There are values, and the last block was read behind them.
  pub record Ready (values : List Text) (k : List Call) (head : Head) (last : BeaconPayload)
      : Type 0 where
    pub source : Sourced values k
    pub full : is_empty values ≡ false
    pub read : w.get_reply (get meta.name ∷ k) ≡ ok head
    pub is_last : (b : Block) × (head.as_block ≡ some b) × (b.payload ≡ some last)

  -- the payload of the next block
  abbrev pub next_payload : List Text → List Call → BeaconPayload → BeaconPayload
  next_payload values k last = record {
    sequence = (last.sequence + 1) % 2 ^ 64;
    timestamp = w.now (get meta.name ∷ k);
    ctrng = values;
  }

  -- the next block, linked to the head that was read
  abbrev pub next_block : List Text → List Call → Head → BeaconPayload → Content
  next_block values k head last =
      block
        (record { link = head.path; payload = some (next_payload values k last); metadata = none })

  abbrev pub adding : List Text → List Call → Head → BeaconPayload → List Call
  adding values k head last = add (next_block values k head last) ∷ get meta.name ∷ k

  -- How an execution ends: refused with nothing added, broken off at the addition or the
  -- publication of the next block, or with that block published.
  pub data Ends : Result BeaconError BeaconPayload × List Call → Type 0 where
    refused : (x : BeaconError) (k : List Call) → IsLoading k → Ends (err x, get meta.name ∷ k)
    not_added :
        (values : List Text) (k : List Call) (head : Head) (last : BeaconPayload)
        → Ready values k head last
        → Ends (err add_failed, adding values k head last)
    not_published :
        (values : List Text) (k : List Call) (head : Head) (last : BeaconPayload) (cid : Text)
        → Ready values k head last
        → w.add_reply (adding values k head last) ≡ ok cid
        → Ends (err publish_failed, publish cid meta.name ∷ adding values k head last)
    extended :
        (values : List Text) (k : List Call) (head : Head) (last : BeaconPayload) (cid name : Text)
        → IsLoading k
        → Ready values k head last
        → w.add_reply (adding values k head last) ≡ ok cid
        → w.publish_reply (publish cid meta.name ∷ adding values k head last) ≡ ok name
        → Ends (ok (next_payload values k last), publish cid meta.name ∷ adding values k head last)

  append_block-Ends :
      (values : List Text) (k : List Call) (head : Head) (last : BeaconPayload)
      → IsLoading k
      → Ready values k head last
      → Ends (append_block w meta values head.path last (get meta.name ∷ k))
  unfolding append_block
  append_block-Ends values k head last loading ready =
      let k1 = adding values k head last in
      elim (Result-cases (w.add_reply k1)) [
        | inr (x, e1) ↦ rw (e1) (not_added values k head last ready)
        | inl (cid, e1) ↦ elim (Result-cases (w.publish_reply (publish cid meta.name ∷ k1))) [
          | inr (x, e2) ↦ rw (e1, e2) (not_published values k head last cid ready e1)
          | inl (name, e2) ↦ rw (e1, e2) (extended values k head last cid name loading ready e1 e2)
        ]
      ]

  execute_with-Ends :
      (values : List Text) (k : List Call) (head : Head) (b : Block)
      → Loads (values, k)
      → w.get_reply (get meta.name ∷ k) ≡ ok head
      → head.as_block ≡ some b
      → Ends (execute_with w meta values (head.path, b.payload) (get meta.name ∷ k))
  unfolding execute_with
  execute_with-Ends values k head b l e eb = elim (Option-cases b.payload) [
    | inl bare ↦ rw (bare) (refused nil_dereference k l.loading)
    | inr (last, kept) ↦ elim (Bool-cases (is_empty values)) [
      | inl empty ↦ rw (kept, empty) (refused no_values k l.loading)
      | inr full ↦
          rw (kept, full)
            (append_block-Ends values k head last l.loading
              (record { source = l.source full; full = full; read = e; is_last = (b, eb, kept) }))
    ]
  ]

  executing-Ends :
      (values : List Text) (k : List Call)
      → Loads (values, k)
      → Ends ((load_last_beacon_block w meta.name >>= execute_with w meta values) k)
  unfolding load_last_beacon_block
  executing-Ends values k l =
      let load = load_last_beacon_block w meta.name in
      let run = execute_with w meta values in
      let fails : (x : BeaconError)
          → load k ≡ (err x, get meta.name ∷ k)
          → Ends ((load >>= run) k) =
        λ x e. subst Ends (sym (step_err load run e)) (refused x k l.loading) in
      elim (Result-cases (w.get_reply (get meta.name ∷ k))) [
        | inr (x, e) ↦ fails get_failed (rw (e, load_last_beacon_block) refl)
        | inl (head, e) ↦ elim (Option-cases head.as_block) [
          | inl other ↦ fails not_a_block (rw (e, other, load_last_beacon_block) refl)
          | inr (b, eb) ↦
              subst Ends (sym (step_ok load run (rw (e, eb, load_last_beacon_block) refl)))
                (execute_with-Ends values k head b l e eb)
        ]
      ]

  -- However an execution ends, a block is added and published only when there are values, fetched for
  -- this execution from the generator's reply or, without one, from the seed pool, and the last block
  -- was read behind them. The block then holds the values, is linked to the path that was read, and has
  -- the last block's sequence number plus one, modulo 2^64; it is published under the beacon's name with
  -- the CID that its addition returned. Every refusal leaves the chain as it was.
  pub execute_beacon-Ends : Ends (execute_beacon w meta h)
  unfolding execute_beacon
  execute_beacon-Ends =
      executing-Ends (load_ctrngs w meta h).0 (load_ctrngs w meta h).1 load_ctrngs-Loads
