-- ===== src/Comebackfs/Listing.antt =====
-- internal/comebackfs/dir_inode.go finds the entries that internal/save/visitor.go has saved.
use comeback.Prelude.{
  ◌≡◌, refl, sym, ap, ◌∙◌, Option, none, some, List, [], ◌∷◌, map, arith, All, if◌then◌else◌,
  Bool-cases, inl, inr,
}
use comeback.Prelude.Go.{Bytes, Result, ok, eq_bytes, eq_bytes_self, eq_of_eq_bytes}
use comeback.Blob.Score.{Score}
use comeback.Blob.Store.{SaveRequest, Store}
use comeback.Blob.Keeping.{Keeps}
use comeback.Repr.Info.{FileInfo, FileInfoProto, IsFileInfo}
use comeback.Repr.Convert.{kept}
use comeback.Repr.Marshal.{
  Proto, make_info_protos, marshal_dir, unmarshal_dir, unmarshal_dir-marshal_dir,
}
use comeback.Save.Dir.{entries_of, save_dir}
use comeback.Save.File.{FsNode}
use comeback.Save.Loads.{after_saves}
use comeback.Save.Listings.{save_dir-HoldsListing, after_saves-Holds}
use comeback.Comebackfs.{InodeAttributes, DirInode, new_dir_inode}
use comeback.Comebackfs.Dir.{
  index_entries, make_listing, ensure_children, look_up_child, find_child,
}

-- The first entry of a name in a listing.
abbrev pub find_entry : Bytes → List FileInfo → Option FileInfo
find_entry name [] = none
find_entry name (e ∷ es) = if eq_bytes e.name name then some e else find_entry name es

-- A name that is indexed already is not met again.
index_entries_old :
    (name : Bytes) (es : List FileInfo) (m children : List (Bytes × FileInfo)) (v : FileInfo)
    → find_child name m ≡ some v
    → index_entries es m ≡ ok children
    → find_child name children ≡ some v
unfolding index_entries
index_entries_old name [] m children v h e = ground arith
index_entries_old name (x ∷ es) m children v h e =
    index_entries_old name es ((x.name, x) ∷ m) children v
      (ground (arith, eq_of_eq_bytes x.name name)) (ground arith)

index_entries_new :
    (name : Bytes) (es : List FileInfo) (m children : List (Bytes × FileInfo))
    → find_child name m ≡ none
    → index_entries es m ≡ ok children
    → find_child name children ≡ find_entry name es
unfolding index_entries
index_entries_new name [] m children h e = ground arith
index_entries_new name (x ∷ es) m children h e = elim (Bool-cases (eq_bytes x.name name)) [
  | inl same ↦
      index_entries_old name es ((x.name, x) ∷ m) children x (ground (arith, same)) (ground arith)
      ∙ ground (arith, same)
  | inr other ↦
      index_entries_new name es ((x.name, x) ∷ m) children (ground (arith, other)) (ground arith)
      ∙ ground (arith, other)
]

-- No two entries have a name in common, and none is a hard link.
abbrev pub AreDistinct : List FileInfo → Type 0
AreDistinct [] = Unit
AreDistinct (e ∷ es) = (find_entry e.name es ≡ none) × (e.hard_link_target ≡ none) × AreDistinct es

find_entry-kept :
    (name : Bytes) (es : List FileInfo)
    → find_entry name es ≡ none
    → find_entry name (map kept es) ≡ none
find_entry-kept name [] h = refl
find_entry-kept name (e ∷ es) h = ground (arith, find_entry-kept name es)

AreDistinct-kept : (es : List FileInfo) → AreDistinct es → AreDistinct (map kept es)
AreDistinct-kept [] h = tt
AreDistinct-kept (e ∷ es) (a, b, c) = (find_entry-kept e.name es a, b, AreDistinct-kept es c)

not_later :
    (x : FileInfo) (es : List FileInfo) (m : List (Bytes × FileInfo))
    → find_entry x.name es ≡ none
    → All (λ (e : FileInfo). find_child e.name m ≡ none) es
    → All (λ (e : FileInfo). find_child e.name ((x.name, x) ∷ m) ≡ none) es
not_later x [] m h k = tt
not_later x (e ∷ es) m h k = (
  ground (arith, k.0, eq_of_eq_bytes x.name e.name, eq_bytes_self x.name),
  not_later x es m (ground arith) k.1,
)

index_entries_returns :
    (es : List FileInfo) (m : List (Bytes × FileInfo))
    → AreDistinct es
    → All (λ (e : FileInfo). find_child e.name m ≡ none) es
    → (children : List (Bytes × FileInfo)) × (index_entries es m ≡ ok children)
unfolding index_entries
index_entries_returns [] m h k = (m, refl)
index_entries_returns (x ∷ es) m (a, b, c) k =
    let (children, e) = index_entries_returns es ((x.name, x) ∷ m) c (not_later x es m a k.1) in
    (children, ground (arith, b, k.0, e))

module _ (proto : Proto) (load : Score → Result Bytes) where
  look_up_child-find_entry :
      (name contents : Bytes) (entries : List FileInfo) (attrs : InodeAttributes) (score : Score)
      → load score ≡ ok contents
      → unmarshal_dir proto contents ≡ ok entries
      → AreDistinct entries
      → (d : DirInode) × (look_up_child proto load name (new_dir_inode attrs score)
          ≡ ok (find_entry name entries, d))
  unfolding look_up_child ensure_children
  look_up_child-find_entry name contents entries attrs score l u v =
      let (children, indexed) = index_entries_returns entries [] v (all_new entries) in
      (
        record {
          score = score;
          attrs = attrs;
          children = some children;
          listing = make_listing 0 entries;
        },
        ground (arith, l, u, indexed, index_entries_new name entries [] children refl indexed),
      )
    where
      all_new : (es : List FileInfo) → All (λ (e : FileInfo). find_child e.name [] ≡ none) es
      all_new [] = tt
      all_new (e ∷ es) = (refl, all_new es)

module _ {S : Type 0} (store : Store S) (keeps : Keeps store) (proto : Proto)
    (acquire : S → Result (Unit {0})) where
  -- When the children of a directory have been saved in a listing, and other blobs after it, the
  -- look-up of a name, in an inode with the score of the listing, finds the child of that name, as far
  -- as the listing keeps it, or nothing if there is none. The store keeps blobs, among them the listing,
  -- the children are well-formed, have different names and are no hard links, and the encoding of
  -- messages reads back what it has written for the listing.
  pub mounted_children :
      (children : List FsNode) (s : S) (score : Score) (later : List SaveRequest)
      (attrs : InodeAttributes) (name : Bytes)
      → keeps.IsGood s
      → ((d : Bytes) → marshal_dir proto (entries_of children) ≡ ok d → keeps.IsAllowed d)
      → ((protos : List FileInfoProto) (e : Bytes)
          → make_info_protos (entries_of children) ≡ ok protos
          → proto.marshal (record { entry = protos }) ≡ ok e
          → proto.unmarshal e ≡ ok (record { entry = protos }))
      → All IsFileInfo (entries_of children)
      → AreDistinct (entries_of children)
      → (save_dir store proto acquire children s).0 ≡ ok (score ∷ [])
      → (d : DirInode) × (look_up_child proto
            (λ t.
              store.load t (after_saves store later (save_dir store proto acquire children s).1))
            name
            (new_dir_inode attrs score)
          ≡ ok (find_entry name (map kept (entries_of children)), d))
  mounted_children children s score later attrs name good allowed law v distinct h =
      let (t, b, one, m, held) =
        save_dir-HoldsListing store keeps proto acquire children s (score ∷ []) good allowed h in
      let s' = after_saves store later (save_dir store proto acquire children s).1 in
      let is : t ≡ score = ground (arith, one) in
      let loaded : store.load score s' ≡ ok b =
        ap (λ (u : Score). store.load u s') (sym is)
        ∙ keeps.loaded s' t b (after_saves-Holds store keeps proto acquire later _ t b held) in
      look_up_child-find_entry proto (λ t. store.load t s') name b (map kept (entries_of children))
        attrs score loaded (unmarshal_dir-marshal_dir proto (entries_of children) b law v m)
        (AreDistinct-kept (entries_of children) distinct)
