-- ===== src/Verify/Certified.antt =====
-- internal/verify/dependency_resolver.go: what its records certify, and what they are used for.
use comeback.Prelude.{
  ◌⊎◌, inl, inr, Bool, false, ◌≡◌, refl, ap, true, Option, none, some, List, [], ◌∷◌, ◌++◌, map,
  arith, All,
}
use comeback.Prelude.Go.{Bytes, Error, Result, ok, err, panic, ◌>>=◌}
use comeback.Blob.Score.{Score}
use comeback.Repr.Info.{FileType, file, directory, symlink, FileInfo, FileInfoProto, IsFileInfo}
use comeback.Repr.Convert.{kept}
use comeback.Repr.Marshal.{
  Proto, make_info_protos, marshal_dir, unmarshal_dir, unmarshal_dir-marshal_dir,
}
use comeback.Verify.Record.{Node}
use comeback.Verify.RecordText.{Record}
use comeback.Verify.Resolver.{
  nodes_of, has_score, known, entry_children, listing_children, Found, find_dependencies,
}

entry_children-kept : (entry : FileInfo) → entry_children (kept entry) ≡ entry_children entry
entry_children-kept entry = refl

listing_children-kept :
    (listing : List FileInfo) → listing_children (map kept listing) ≡ listing_children listing
listing_children-kept [] = refl
listing_children-kept (entry ∷ listing) =
    ap (λ r. entry_children entry >>= λ cs. r >>= λ rest. ok (cs ++ rest))
      (listing_children-kept listing)

-- An entry of a kind that is verified: a file or a directory, or a symlink without scores.
abbrev pub IsVerifiable : FileInfo → Type 0
IsVerifiable entry =
    (entry.type ≡ file) ⊎ (entry.type ≡ directory) ⊎ ((entry.type ≡ symlink) × (entry.scores ≡ []))

-- Whether a type is that of directories.
abbrev pub is_directory : FileType → Bool
is_directory directory = true
is_directory _ = false

-- The nodes for the scores of the entries in their order, which are those of directories where the
-- entry is one, and else those of files.
abbrev pub nodes_for : List FileInfo → List Node
nodes_for [] = []
nodes_for (entry ∷ listing) =
    map (λ s. record { score = s; dir = is_directory entry.type }) entry.scores ++ nodes_for listing

nodes_of-map :
    (dir : Bool) (ss : List Score) → nodes_of dir ss ≡ map (λ s. record { score = s; dir = dir }) ss
nodes_of-map dir [] = refl
nodes_of-map dir (s ∷ ss) = ap (λ ns. record { score = s; dir = dir } ∷ ns) (nodes_of-map dir ss)

entry_children-nodes :
    (entry : FileInfo)
    → IsVerifiable entry
    → entry_children entry
      ≡ ok (map (λ s. record { score = s; dir = is_directory entry.type }) entry.scores)
entry_children-nodes entry (inl e) = rw e (ap ok (nodes_of-map false entry.scores))
entry_children-nodes entry (inr (inl e)) = rw e (ap ok (nodes_of-map true entry.scores))
entry_children-nodes entry (inr (inr (e, none_left))) = ground (arith, e, none_left)

listing_children-nodes_for :
    (listing : List FileInfo)
    → All IsVerifiable listing
    → listing_children listing ≡ ok (nodes_for listing)
listing_children-nodes_for [] v = refl
listing_children-nodes_for (entry ∷ listing) v =
    rw (entry_children-nodes entry v.0, listing_children-nodes_for listing v.1) refl

module _ {T : Type 0} (proto : Proto) (all_scores : List Score) where
  -- What a record that was sent stands for.
  pub record Certified (load : Score → Result Bytes) (now : T) (n : Node) (deps : List Node)
      (r : Record T) : Type 0 where
    pub is_record : r ≡ record { time = now; node = n; children = deps }
    pub is_dir : n.dir ≡ true
    pub exists : has_score n.score all_scores ≡ true
    pub read :
        (contents : Bytes) × (listing : List FileInfo) × (load n.score ≡ ok contents)
        × (unmarshal_dir proto contents ≡ ok listing)
        × (listing_children listing ≡ ok deps)

  -- A record is sent only for a directory whose score exists and whose listing has been loaded and
  -- parsed; it names the node with the dependencies that are returned.
  pub find_dependencies-Certified :
      (load : Score → Result Bytes) (known_structure : List (Node × List Node)) (now : T)
      (ctx_err : Option Error) (n : Node) (found : Found T) (r : Record T)
      → find_dependencies proto load all_scores known_structure now ctx_err n ≡ ok found
      → found.sent ≡ some r
      → Certified load now n found.deps r
  unfolding find_dependencies
  find_dependencies-Certified load known_structure now ctx_err n found r h s =
      go (load n.score) refl
    where
      parsed :
          (contents : Bytes)
          → load n.score ≡ ok contents
          → (l : Result (List FileInfo)) → unmarshal_dir proto contents ≡ l
          → (cs : Result (List Node)) → (unmarshal_dir proto contents >>= listing_children) ≡ cs
          → Certified load now n found.deps r
      parsed contents e (ok listing) e' (ok cs) e'' = record {
        is_record = ground (arith, e, e', e'');
        is_dir = ground (arith, e, e', e'');
        exists = ground (arith, e, e', e'');
        read = (contents, listing, e, e', ground (arith, e, e', e''));
      }
      parsed contents e (ok listing) e' (err x) e'' = absurd (ground (arith, e, e', e''))
      parsed contents e (ok listing) e' panic e'' = absurd (ground (arith, e, e', e''))
      parsed contents e (err x) e' cs e'' = absurd (ground (arith, e, e'))
      parsed contents e panic e' cs e'' = absurd (ground (arith, e, e'))

      go : (l : Result Bytes) → load n.score ≡ l → Certified load now n found.deps r
      go (ok contents) e = parsed contents e _ refl _ refl
      go (err x) e = absurd (ground (arith, e))
      go panic e = absurd (ground (arith, e))

  -- A directory for which the known structure has the children of a record that was sent is not loaded
  -- again: among the same scores, its dependencies are those that were found when the record was
  -- made. Nothing is asked of the store.
  pub find_dependencies_again :
      (load load' : Score → Result Bytes) (ks ks' : List (Node × List Node)) (now now' : T)
      (ctx_err ctx_err' : Option Error) (n : Node) (found : Found T) (r : Record T)
      → find_dependencies proto load all_scores ks now ctx_err n ≡ ok found
      → found.sent ≡ some r
      → known r.node ks' ≡ some r.children
      → find_dependencies proto load' all_scores ks' now' ctx_err' n
        ≡ ok (record { deps = found.deps; sent = none })
  unfolding find_dependencies
  find_dependencies_again load load' ks ks' now now' ctx_err ctx_err' n found r h s k =
      let c = find_dependencies-Certified load ks now ctx_err n found r h s in
      let node : r.node ≡ n = ap (λ (q : Record T). q.node) c.is_record in
      let children : r.children ≡ found.deps = ap (λ (q : Record T). q.children) c.is_record in
      let k' : known n ks' ≡ some found.deps = rw (← node, ← children) k in
      ground (arith, c.is_dir, c.exists, k')

  -- For a directory whose score exists, that was saved with a listing and is loaded unchanged, the
  -- dependencies are the nodes for the scores of the listing's entries, in their order: nodes of
  -- directories for the scores of directories, and nodes of files for the others. They are sent in a
  -- record. The entries are well-formed and are files, directories or symlinks without scores, nothing
  -- is known of the directory, the context is not done, and the encoding of messages reads back what it
  -- has written for the listing.
  pub find_dependencies-marshal_dir :
      (load : Score → Result Bytes) (now : T) (n : Node) (listing : List FileInfo) (d : Bytes)
      → ((protos : List FileInfoProto) (e : Bytes)
          → make_info_protos listing ≡ ok protos
          → proto.marshal (record { entry = protos }) ≡ ok e
          → proto.unmarshal e ≡ ok (record { entry = protos }))
      → All IsFileInfo listing
      → All IsVerifiable listing
      → marshal_dir proto listing ≡ ok d
      → has_score n.score all_scores ≡ true
      → n.dir ≡ true
      → load n.score ≡ ok d
      → find_dependencies proto load all_scores [] now none n
        ≡ ok (record {
          deps = nodes_for listing;
          sent = some (record { time = now; node = n; children = nodes_for listing });
        })
  unfolding find_dependencies
  find_dependencies-marshal_dir load now n listing d law v w m exists dir l = ground (
    arith,
    unmarshal_dir-marshal_dir proto listing d law v m,
    listing_children-kept listing,
    listing_children-nodes_for listing w,
  )
