-- ===== src/Comebackfs/Checks.antt =====
-- internal/comebackfs: `checkInvariants` of the file system and of directories.
use mathlib.Core.Path.{subst}
use comeback.Prelude.{
  ℕ, ◌+◌, ◌<◌, ◌≡◌, refl, Option, none, some, List, [], ◌∷◌, arith, All, ◌==◌, Bool-cases, inl, inr,
}
use comeback.Prelude.Go.{Bytes, Result, ok, err, panic, within, >>=-passes, within-eq-ok}
use comeback.Blob.Score.{Score}
use comeback.Repr.Info.{FileInfo}
use comeback.Repr.Marshal.{Proto, unmarshal_dir}
use comeback.Comebackfs.{
  DirInode, Inode, dir_inode, file_inode, symlink_inode, InodeRecord, FileHandle, FileSystem, put,
  delete, create_inode, count_look_up, register, look_up_or_create_inode,
}
use comeback.Comebackfs.Dir.{WriteDirent, index_entries, read_children, ensure_children}
use comeback.Comebackfs.Handle.{TempFiles}
use comeback.Comebackfs.Server.{new_file_system, root_entry, empty_file_system, set_inode}

-- The children are indexed by their names, and none is a hard link.
abbrev pub ChildChecked : Bytes × FileInfo → Type 0
ChildChecked (k, v) = (v.name ≡ k) × (v.hard_link_target ≡ none)

abbrev pub ChildrenChecked : Option (List (Bytes × FileInfo)) → Type 0
ChildrenChecked none = Unit
ChildrenChecked (some children) = All ChildChecked children

abbrev pub InodeChecked : Inode → Type 0
InodeChecked (dir_inode d) = ChildrenChecked d.children
InodeChecked (file_inode f) = Unit
InodeChecked (symlink_inode s) = Unit

pub record RecordChecked (rec : InodeRecord) : Type 0 where
  pub counted : 0 < rec.lookup_count
  pub inode : InodeChecked rec.in_

-- What no call of `checkInvariants` ends the program for.
pub record FsChecked (fs : FileSystem) : Type 0 where
  pub inodes : (i : ℕ) (rec : InodeRecord) → fs.inodes i ≡ some rec → RecordChecked rec
  pub file_handles : (h : ℕ) (fh : FileHandle) → fs.file_handles h ≡ some fh → h < fs.next_handle_id

pub put_lem :
    {A : Type 0} (P : ℕ → A → Type 0) (k : ℕ) (v : A) (m : ℕ → Option A)
    → P k v
    → ((i : ℕ) (a : A) → m i ≡ some a → P i a)
    → (i : ℕ) (a : A) → put k v m i ≡ some a
    → P i a
put_lem P k v m p h i a e = elim (Bool-cases (i == k)) [
  | inl same ↦
      let q : k ≡ i = ground (arith, same) in
      let r : v ≡ a = ground (arith, same) in subst (λ (j : ℕ). P j a) q (subst (P k) r p)
  | inr other ↦ h i a (ground (arith, other))
]

pub delete_lem :
    {A : Type 0} (P : ℕ → A → Type 0) (k : ℕ) (m : ℕ → Option A)
    → ((i : ℕ) (a : A) → m i ≡ some a → P i a)
    → (i : ℕ) (a : A) → delete k m i ≡ some a
    → P i a
delete_lem P k m h i a e = elim (Bool-cases (i == k)) [
  | inl same ↦ absurd (ground (arith, same))
  | inr other ↦ h i a (ground (arith, other))
]

index_entries_checked :
    (es : List FileInfo) (m children : List (Bytes × FileInfo))
    → All ChildChecked m
    → index_entries es m ≡ ok children
    → All ChildChecked children
unfolding index_entries
index_entries_checked [] m children h e =
    let q : m ≡ children = ground arith in subst (All ChildChecked) q h
index_entries_checked (x ∷ es) m children h e =
    index_entries_checked es ((x.name, x) ∷ m) children ((refl, ground arith), h) (ground arith)

create_inode_checked :
    (e : FileInfo) (uid gid : ℕ) (i : Inode) → create_inode e uid gid ≡ ok i → InodeChecked i
unfolding create_inode
create_inode_checked e uid gid (dir_inode d) h =
    let q : none ≡ d.children = ground arith in subst ChildrenChecked q tt
create_inode_checked e uid gid (file_inode f) h = tt
create_inode_checked e uid gid (symlink_inode s) h = tt

register_checked :
    (id : ℕ) (r : Result Inode) (fs : FileSystem)
    → ((i : Inode) → r ≡ ok i → InodeChecked i)
    → FsChecked fs
    → FsChecked (register id r fs).1
register_checked id (ok i) fs h v = record {
  inodes =
      put_lem (λ k rec. RecordChecked rec) id (record { lookup_count = 1; in_ = i }) fs.inodes
        (record { counted = omega arith; inode = h i refl }) v.inodes;
  file_handles = v.file_handles;
}
register_checked id (err e) fs h v = v
register_checked id panic fs h v = v

pub look_up_or_create_inode_checked :
    (e : FileInfo) (fs : FileSystem) → FsChecked fs → FsChecked (look_up_or_create_inode e fs).1
unfolding look_up_or_create_inode
look_up_or_create_inode_checked e fs v = go (fs.inodes e.inode) refl
  where
    go : (o : Option InodeRecord) → fs.inodes e.inode ≡ o → FsChecked (count_look_up e o fs).1
    go none q =
        register_checked e.inode (within "createInode" (create_inode e fs.uid fs.gid)) fs
          (λ i h. create_inode_checked e fs.uid fs.gid i (within-eq-ok "createInode" _ h)) v
    go (some rec) q = record {
      inodes =
          put_lem (λ k rec. RecordChecked rec) e.inode
            (record rec { lookup_count = rec.lookup_count + 1 }) fs.inodes
            (record { counted = omega arith; inode = (v.inodes e.inode rec q).inode }) v.inodes;
      file_handles = v.file_handles;
    }

-- An inode that takes the place of a checked one.
pub set_inode_checked :
    (id : ℕ) (rec : InodeRecord) (i : Inode) (fs : FileSystem)
    → RecordChecked rec
    → InodeChecked i
    → FsChecked fs
    → FsChecked (set_inode id rec i fs)
set_inode_checked id rec i fs r c v = record {
  inodes =
      put_lem (λ k rec. RecordChecked rec) id (record rec { in_ = i }) fs.inodes
        (record { counted = r.counted; inode = c }) v.inodes;
  file_handles = v.file_handles;
}

-- The file system at first.
pub new_file_system-FsChecked :
    (uid gid : ℕ) (score : Score) (fs : FileSystem)
    → new_file_system uid gid score ≡ ok fs
    → FsChecked fs
unfolding new_file_system look_up_or_create_inode create_inode
new_file_system-FsChecked uid gid score fs h =
    let v = look_up_or_create_inode_checked (root_entry score) (empty_file_system uid gid) (record {
      inodes = λ i rec q. absurd (ground arith);
      file_handles = λ i fh q. absurd (ground arith);
    }) in
    let same : (look_up_or_create_inode (root_entry score) (empty_file_system uid gid)).1 ≡ fs =
      ground arith in
    subst FsChecked same v

module _ (proto : Proto) (load : Score → Result Bytes) (write : WriteDirent)
    (temp : TempFiles) where
  pub ensure_children_checked :
      (d d' : DirInode)
      → ChildrenChecked d.children
      → ensure_children proto load d ≡ ok d'
      → ChildrenChecked d'.children
  unfolding ensure_children
  ensure_children_checked d d' c h = go d.children refl
    where
      go : (o : Option (List (Bytes × FileInfo))) → d.children ≡ o → ChildrenChecked d'.children
      go (some children) q =
          let same : d.children ≡ d'.children = ground (arith, q) in subst ChildrenChecked same c
      go none q =
          let h' : read_children proto load d ≡ ok d' = ground (arith, q) in
          let (contents, loaded, h1) = >>=-passes (within "blobStore.Load" (load d.score)) _ h' in
          let (entries, parsed, h2) =
            >>=-passes (within "UnmarshalDir" (unmarshal_dir proto contents)) _ h1 in
          let (children, indexed, h3) = >>=-passes (index_entries entries []) _ h2 in
          let same : some children ≡ d'.children = ground arith in
          subst ChildrenChecked same (index_entries_checked entries [] children tt indexed)
