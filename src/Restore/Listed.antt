-- ===== src/Restore/Listed.antt =====
-- internal/restore/dependency_resolver.go finds what `saveDir` of internal/save/visitor.go has saved.
use comeback.Prelude.{◌≡◌, refl, List, [], ◌∷◌, map, arith, All}
use comeback.Prelude.Go.{Bytes, Result, ok}
use comeback.Blob.Score.{Score}
use comeback.Blob.Store.{SaveRequest, Store}
use comeback.Blob.Keeping.{Keeps}
use comeback.Repr.Info.{directory, FileInfoProto, IsFileInfo}
use comeback.Repr.Convert.{kept}
use comeback.Repr.Marshal.{Proto, make_info_protos, marshal_dir, unmarshal_dir-marshal_dir}
use comeback.Save.File.{FsNode}
use comeback.Save.Dir.{entries_of, save_dir}
use comeback.Save.Loads.{after_saves}
use comeback.Restore.Resolver.{child_nodes, find_dependencies}
use comeback.Save.Listings.{after_saves-Holds, save_dir-HoldsListing}

-- The nodes are for the children, one after the other: each has the path of its child's name in the
-- directory, and what the listing keeps of the child.
abbrev pub AreNodesFor :
    (join : Bytes → Bytes → Bytes) (rel_path : Bytes) → List FsNode → List FsNode → Type 0
AreNodesFor join rel_path [] [] = Unit
AreNodesFor join rel_path (child ∷ children) (node ∷ nodes) =
    (node.rel_path ≡ join rel_path child.info.name)
    × (node.info ≡ kept child.info)
    × AreNodesFor join rel_path children nodes
AreNodesFor join rel_path _ _ = ⊥

module _ {S : Type 0} (store : Store S) (keeps : Keeps store) (proto : Proto)
    (acquire : S → Result (Unit {0})) (join : Bytes → Bytes → Bytes) where
  restored_child_nodes :
      (children : List FsNode) (s : S) (scores : List Score) (later : List SaveRequest) (n : FsNode)
      → keeps.IsGood s
      → ((d : Bytes) → marshal_dir proto (entries_of children) ≡ ok d → keeps.IsAllowed d)
      → ((protos : List FileInfoProto) (e : Bytes)
          → make_info_protos (entries_of children) ≡ ok protos
          → proto.marshal (record { entry = protos }) ≡ ok e
          → proto.unmarshal e ≡ ok (record { entry = protos }))
      → All IsFileInfo (entries_of children)
      → (save_dir store proto acquire children s).0 ≡ ok scores
      → n.info.type ≡ directory
      → n.info.scores ≡ scores
      → find_dependencies store proto join n
          (after_saves store later (save_dir store proto acquire children s).1)
        ≡ ok (child_nodes store proto join n.rel_path (map kept (entries_of children)))
  unfolding find_dependencies
  restored_child_nodes children s scores later n good allowed law v h dir same =
      let (score, d, one, m, held) =
        save_dir-HoldsListing store keeps proto acquire children s scores good allowed h in
      let read =
        keeps.loaded (after_saves store later (save_dir store proto acquire children s).1) score d
          (after_saves-Holds store keeps proto acquire later _ score d held) in
      ground (arith, one, read, unmarshal_dir-marshal_dir proto (entries_of children) d law v m)

  child_nodes-AreNodesFor :
      (rel_path : Bytes) (children : List FsNode)
      → AreNodesFor join rel_path children
          (child_nodes store proto join rel_path (map kept (entries_of children)))
  child_nodes-AreNodesFor rel_path [] = tt
  child_nodes-AreNodesFor rel_path (child ∷ children) =
      (refl, refl, child_nodes-AreNodesFor rel_path children)

  -- When the children of a directory have been saved in a listing, and other blobs after it, nodes are
  -- found as the dependencies of the directory, one for each child and in their order: each has the
  -- path of the child's name in the directory, and what the listing keeps of the child. The store
  -- keeps blobs, among them the listing, the children are well-formed, and the encoding of messages
  -- reads back what it has written for the listing.
  pub restored_children :
      (children : List FsNode) (s : S) (scores : List Score) (later : List SaveRequest) (n : FsNode)
      → keeps.IsGood s
      → ((d : Bytes) → marshal_dir proto (entries_of children) ≡ ok d → keeps.IsAllowed d)
      → ((protos : List FileInfoProto) (e : Bytes)
          → make_info_protos (entries_of children) ≡ ok protos
          → proto.marshal (record { entry = protos }) ≡ ok e
          → proto.unmarshal e ≡ ok (record { entry = protos }))
      → All IsFileInfo (entries_of children)
      → (save_dir store proto acquire children s).0 ≡ ok scores
      → n.info.type ≡ directory
      → n.info.scores ≡ scores
      → (nodes : List FsNode) × (find_dependencies store proto join n
            (after_saves store later (save_dir store proto acquire children s).1)
          ≡ ok nodes)
        × AreNodesFor join n.rel_path children nodes
  restored_children children s scores later n good allowed law v h dir same = (
    _,
    restored_child_nodes children s scores later n good allowed law v h dir same,
    child_nodes-AreNodesFor n.rel_path children,
  )
