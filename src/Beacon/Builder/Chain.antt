-- ===== src/Beacon/Builder/Chain.antt =====
-- What one execution of a beacon after the other leaves: a chain of blocks.
use orbitport.Base.{◌+◌, ◌%◌, ◌^◌, ◌≡◌, ◌≢◌, sym, ap, ◌∙◌, List, [], ◌∷◌, ◌++◌, some, inl, inr}
use orbitport.Base.All.{All}
use orbitport.Base.Result.{Result, ok}
use orbitport.Text.{Text}
use orbitport.Beacon.Types.{BeaconMetadata, BeaconPayload, Block}
use orbitport.Beacon.Ipfs.{
  block, Call, key_info, get, add, publish, wait, trng, seeds, World, Head, BeaconError,
}
use orbitport.Beacon.Builder.{batch_of, execute_beacon}
use orbitport.Beacon.Builder.Publishing.{
  IsLoading, Ends, next_payload, next_block, refused, not_added, not_published, extended,
  execute_beacon-Ends,
}

-- The call does not publish under the name.
abbrev pub IsQuiet : Text → Call → Type 0
IsQuiet name (publish cid n) = n ≢ name
IsQuiet name (key_info n) = Unit
IsQuiet name (get n) = Unit
IsQuiet name (add c) = Unit
IsQuiet name (wait n) = Unit
IsQuiet name trng = Unit
IsQuiet name (seeds n) = Unit

-- Where a block was added and the CID that its addition returned was then published under a name, a read
-- of the name leads to that CID's path and that block, as long as nothing else is published under the
-- name. `path_of` gives the path of a CID.
abbrev pub IsHonest : World → (Text → Text) → Type 0
IsHonest w path_of =
    (name cid key : Text) (b : Block) (others rest : List Call) (head : Head)
    → w.add_reply (add (block b) ∷ rest) ≡ ok cid
    → w.publish_reply (publish cid name ∷ add (block b) ∷ rest) ≡ ok key
    → All (IsQuiet name) others
    → w.get_reply (get name ∷ (others ++ publish cid name ∷ add (block b) ∷ rest)) ≡ ok head
    → (head.path ≡ path_of cid) × (head.as_block ≡ some b)

-- a block that an execution has published, with its CID and its payload
pub record Published : Type 0 where
  pub cid : Text
  pub content : Block
  pub payload : BeaconPayload

module _ (w : World) (meta : BeaconMetadata) where
  -- Executions of the beacon, each successful, with other calls between them that do not publish under
  -- the beacon's name; the published blocks, the first one first.
  pub data Serial : List Call → List Published → Type 0 where
    idle : (h : List Call) → Serial h []
    executed :
        (h others rest : List Call) (p : Published) (ps : List Published)
        → execute_beacon w meta h
          ≡ (ok p.payload, publish p.cid meta.name ∷ add (block p.content) ∷ rest)
        → All (IsQuiet meta.name) others
        → Serial (others ++ publish p.cid meta.name ∷ add (block p.content) ∷ rest) ps
        → Serial h (p ∷ ps)

  -- what a successful execution has read and published
  record Step (h rest : List Call) (p : Published) : Type 0 where
    key : Text
    added : w.add_reply (add (block p.content) ∷ rest) ≡ ok p.cid
    published : w.publish_reply (publish p.cid meta.name ∷ add (block p.content) ∷ rest) ≡ ok key
    loading : List Call
    is_loading : IsLoading w meta h loading
    head : Head
    last : BeaconPayload
    read : w.get_reply (get meta.name ∷ loading) ≡ ok head
    is_last : (b : Block) × (head.as_block ≡ some b) × (b.payload ≡ some last)
    link : p.content.link ≡ head.path
    carried : p.content.payload ≡ some p.payload
    next : p.payload.sequence ≡ (last.sequence + 1) % 2 ^ 64

  published-Step :
      (h rest : List Call) (p : Published) (r : Result BeaconError BeaconPayload × List Call)
      → Ends w meta h r
      → r ≡ (ok p.payload, publish p.cid meta.name ∷ add (block p.content) ∷ rest)
      → Step h rest p
  published-Step h rest p _ (refused x k l) e = cc
  published-Step h rest p _ (not_added values k head last r) e = cc
  published-Step h rest p _ (not_published values k head last cid r a) e = cc
  published-Step h rest p _ (extended values k head last cid name l r a b) e =
      let payload : next_payload w meta h values k last ≡ p.payload = cc in
      let content : next_block w meta h values k head last ≡ block p.content = cc in
      record {
        key = name;
        added = cc;
        published = cc;
        loading = k;
        is_loading = l;
        head = head;
        last = last;
        read = r.read;
        is_last = r.is_last;
        link = cc;
        carried = cc;
        next = cc;
      }

  -- the calls between the publication and the next read
  read_back :
      (path_of : Text → Text)
      → IsHonest w path_of
      → (p : Published) (others rest loading : List Call) (head : Head) (key : Text)
      → w.add_reply (add (block p.content) ∷ rest) ≡ ok p.cid
      → w.publish_reply (publish p.cid meta.name ∷ add (block p.content) ∷ rest) ≡ ok key
      → All (IsQuiet meta.name) others
      → IsLoading w meta (others ++ publish p.cid meta.name ∷ add (block p.content) ∷ rest) loading
      → w.get_reply (get meta.name ∷ loading) ≡ ok head
      → (head.path ≡ path_of p.cid) × (head.as_block ≡ some p.content)
  read_back path_of honest p others rest loading head key a b quiet (inl e) r =
      honest meta.name p.cid key p.content (trng ∷ others) rest head a b (tt, quiet)
        (ap (λ k. w.get_reply (get meta.name ∷ k)) (sym e) ∙ r)
  read_back path_of honest p others rest loading head key a b quiet (inr e) r =
      honest meta.name p.cid key p.content (seeds (batch_of meta % 2 ^ 32) ∷ trng ∷ others) rest
        head a b (tt, (tt, quiet)) (ap (λ k. w.get_reply (get meta.name ∷ k)) (sym e) ∙ r)

  -- The block is linked to the one before it and has the next sequence number.
  abbrev pub Links : (Text → Text) → Published → Published → Type 0
  Links path_of p q =
      (q.content.link ≡ path_of p.cid)
      × (q.content.payload ≡ some q.payload)
      × (q.payload.sequence ≡ (p.payload.sequence + 1) % 2 ^ 64)

  abbrev pub Chain : (Text → Text) → List Published → Type 0
  Chain path_of [] = Unit
  Chain path_of (p ∷ []) = Unit
  Chain path_of (p ∷ q ∷ ps) = Links path_of p q × Chain path_of (q ∷ ps)

  links :
      (path_of : Text → Text)
      → IsHonest w path_of
      → (p q : Published) (h others rest rest' : List Call) → Step h rest p
      → All (IsQuiet meta.name) others
      → Step (others ++ publish p.cid meta.name ∷ add (block p.content) ∷ rest) rest' q
      → Links path_of p q
  links path_of honest p q h others rest rest' first quiet st =
      let (path, as_block) =
        read_back path_of honest p others rest st.loading st.head first.key first.added
          first.published quiet st.is_loading st.read in
      let (b, is_b, is_last) = st.is_last in
      let carried = first.carried in
      let same : st.last ≡ p.payload = cc in
      (
        st.link ∙ path,
        st.carried,
        st.next ∙ ap (λ (l : BeaconPayload). (l.sequence + 1) % 2 ^ 64) same,
      )

  -- Executions of one beacon, one after the other, that each succeed publish a chain: every block is
  -- linked to the path of the block published before it and holds that block's sequence number plus one,
  -- modulo 2^64, whatever else is called between them as long as it does not publish under the beacon's
  -- name, and provided that a name under which a CID was published, returned by the addition of a block
  -- just before, leads to that CID's path and that block.
  pub executions-Chain :
      (path_of : Text → Text)
      → IsHonest w path_of
      → (ps : List Published) (h : List Call) → Serial h ps
      → Chain path_of ps
  executions-Chain path_of honest [] h s = tt
  executions-Chain path_of honest (p ∷ []) h s = tt
  executions-Chain path_of honest (p ∷ q ∷ ps) h
        (executed _ others rest _ _ e quiet (executed _ others' rest' _ _ e' quiet' s)) =
      let first = published-Step h rest p _ (execute_beacon-Ends w meta h) e in
      let second = published-Step _ rest' q _ (execute_beacon-Ends w meta _) e' in
      (
        links path_of honest p q h others rest rest' first quiet second,
        executions-Chain path_of honest (q ∷ ps) _ (executed _ others' rest' q ps e' quiet' s),
      )
