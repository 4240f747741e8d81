-- ===== src/Comebackfs/Serving.antt =====
-- internal/comebackfs/fs.go: every operation keeps what `checkInvariants` checks.
use mathlib.Core.Path.{subst}
use comeback.Prelude.{
  ℕ, ◌+◌, ◌-◌, ◌<◌, ◌≡◌, refl, Option, none, some, arith, ◌==◌, ltb, Bool-cases, inl, inr,
}
use comeback.Prelude.Go.{Bytes, Result, ok, err, panic, within, >>=-passes, within-eq-ok}
use comeback.Blob.Score.{Score}
use comeback.Repr.Info.{FileInfo}
use comeback.Repr.Marshal.{Proto}
use comeback.Comebackfs.{
  DirInode, Inode, dir_inode, file_inode, symlink_inode, InodeRecord, FileHandle, FileSystem,
  look_up_or_create_inode,
}
use comeback.Comebackfs.Dir.{WriteDirent, ensure_children, look_up_child, read_dir_inode}
use comeback.Comebackfs.Handle.{TempFiles}
use comeback.Comebackfs.Server.{
  Op, get_inode_attributes, look_up_inode, forget_inode, read_dir, open_file, read_file,
  release_file_handle, read_symlink, set_inode, entry_found, child_found, forget, on_attributes,
  look_up_in, on_look_up, on_forget, read_in, on_read_dir, open_in, on_open, on_read_file,
  on_release, target_of, on_symlink, serve,
}
use comeback.Comebackfs.Checks.{
  ChildrenChecked, InodeChecked, RecordChecked, FsChecked, put_lem, delete_lem,
  look_up_or_create_inode_checked, set_inode_checked, ensure_children_checked,
}

on_attributes_checked :
    (o : Option InodeRecord) (fs : FileSystem) → FsChecked fs → FsChecked (on_attributes o fs).1
on_attributes_checked none fs v = v
on_attributes_checked (some rec) fs v = v

entry_found_checked :
    (e : FileInfo) (r : Result Inode) (fs : FileSystem)
    → FsChecked fs
    → FsChecked (entry_found e (r, fs)).1
entry_found_checked e (ok i) fs v = v
entry_found_checked e (err x) fs v = v
entry_found_checked e panic fs v = v

child_found_checked :
    (parent : ℕ) (rec : InodeRecord) (r : Result (Option FileInfo × DirInode)) (fs : FileSystem)
    → RecordChecked rec
    → ((o : Option FileInfo) (d : DirInode) → r ≡ ok (o, d) → ChildrenChecked d.children)
    → FsChecked fs
    → FsChecked (child_found parent rec r fs).1
child_found_checked parent rec (err e) fs c h v = v
child_found_checked parent rec panic fs c h v = v
child_found_checked parent rec (ok (none, d)) fs c h v =
    set_inode_checked parent rec (dir_inode d) fs c (h none d refl) v
child_found_checked parent rec (ok (some e, d)) fs c h v =
    let fs' = set_inode parent rec (dir_inode d) fs in
    entry_found_checked e (look_up_or_create_inode e fs').0 (look_up_or_create_inode e fs').1 (
      look_up_or_create_inode_checked e fs'
        (set_inode_checked parent rec (dir_inode d) fs c (h (some e) d refl) v))

forget_checked :
    (id n : ℕ) (rec : InodeRecord) (fs : FileSystem)
    → RecordChecked rec
    → FsChecked fs
    → FsChecked (forget id n rec fs)
forget_checked id n rec fs c v = elim (Bool-cases (rec.lookup_count - n == 0)) [
  | inl gone ↦ rw gone (record {
    inodes = delete_lem (λ k r. RecordChecked r) id fs.inodes v.inodes;
    file_handles = v.file_handles;
  })
  | inr left ↦ rw left (record {
    inodes =
        put_lem (λ k r. RecordChecked r) id (record rec { lookup_count = rec.lookup_count - n })
          fs.inodes (record { counted = ground (arith, left); inode = c.inode }) v.inodes;
    file_handles = v.file_handles;
  })
]

on_forget_checked :
    (id n : ℕ) (o : Option InodeRecord) (fs : FileSystem)
    → fs.inodes id ≡ o
    → FsChecked fs
    → FsChecked (on_forget id n o fs).1
on_forget_checked id n none fs q v = v
on_forget_checked id n (some rec) fs q v = elim (Bool-cases (ltb rec.lookup_count n)) [
  | inl e ↦ rw e v
  | inr e ↦ rw e (forget_checked id n rec fs (v.inodes id rec q) v)
]

open_in_checked : (i : Inode) (fs : FileSystem) → FsChecked fs → FsChecked (open_in i fs).1
open_in_checked (file_inode f) fs v = record {
  inodes = v.inodes;
  file_handles =
      put_lem (λ k fh. k < fs.next_handle_id + 1) fs.next_handle_id _ fs.file_handles (omega arith)
        (λ h fh q. omega (arith, v.file_handles h fh q));
}
open_in_checked (dir_inode d) fs v = v
open_in_checked (symlink_inode s) fs v = v

on_open_checked :
    (o : Option InodeRecord) (fs : FileSystem) → FsChecked fs → FsChecked (on_open o fs).1
on_open_checked none fs v = v
on_open_checked (some rec) fs v = open_in_checked rec.in_ fs v

on_release_checked :
    (handle : ℕ) (o : Option FileHandle) (fs : FileSystem)
    → FsChecked fs
    → FsChecked (on_release handle o fs).1
on_release_checked handle none fs v = v
on_release_checked handle (some fh) fs v = record {
  inodes = v.inodes;
  file_handles = delete_lem (λ h fh. h < fs.next_handle_id) handle fs.file_handles v.file_handles;
}

target_of_checked : (i : Inode) (fs : FileSystem) → FsChecked fs → FsChecked (target_of i fs).1
target_of_checked (symlink_inode s) fs v = v
target_of_checked (dir_inode d) fs v = v
target_of_checked (file_inode f) fs v = v

on_symlink_checked :
    (o : Option InodeRecord) (fs : FileSystem) → FsChecked fs → FsChecked (on_symlink o fs).1
on_symlink_checked none fs v = v
on_symlink_checked (some rec) fs v = target_of_checked rec.in_ fs v

module _ (proto : Proto) (load : Score → Result Bytes) (write : WriteDirent)
    (temp : TempFiles) where
  look_up_child_checked :
      (name : Bytes) (d d' : DirInode) (o : Option FileInfo)
      → ChildrenChecked d.children
      → look_up_child proto load name d ≡ ok (o, d')
      → ChildrenChecked d'.children
  unfolding look_up_child
  look_up_child_checked name d d' o c h =
      let (d1, ensured, h1) =
        >>=-passes (within "ensureChildren" (ensure_children proto load d)) _ h in
      let same : d1.children ≡ d'.children = ground arith in
      subst ChildrenChecked same (
        ensure_children_checked proto load write temp d d1 c
          (within-eq-ok "ensureChildren" _ ensured))

  look_up_in_checked :
      (parent : ℕ) (name : Bytes) (rec : InodeRecord) (i : Inode) (fs : FileSystem)
      → RecordChecked rec
      → InodeChecked i
      → FsChecked fs
      → FsChecked (look_up_in proto load write temp parent name rec i fs).1
  look_up_in_checked parent name rec (dir_inode d) fs c k v =
      child_found_checked parent rec (look_up_child proto load name d) fs c
        (λ o d' q. look_up_child_checked name d d' o k q) v
  look_up_in_checked parent name rec (file_inode f) fs c k v = v
  look_up_in_checked parent name rec (symlink_inode s) fs c k v = v

  read_dir_inode_checked :
      (offset room : ℕ) (d : DirInode)
      → ChildrenChecked d.children
      → ChildrenChecked (read_dir_inode proto load write offset room d).1.children
  unfolding read_dir_inode
  read_dir_inode_checked offset room d c = go (ensure_children proto load d) refl
    where
      go :
          (r : Result DirInode)
          → ensure_children proto load d ≡ r
          → ChildrenChecked (read_dir_inode proto load write offset room d).1.children
      go (err e) q =
          let same : d.children ≡ (read_dir_inode proto load write offset room d).1.children =
            ground (arith, q) in
          subst ChildrenChecked same c
      go panic q =
          let same : d.children ≡ (read_dir_inode proto load write offset room d).1.children =
            ground (arith, q) in
          subst ChildrenChecked same c
      go (ok d') q =
          let same : d'.children ≡ (read_dir_inode proto load write offset room d).1.children =
            ground (arith, q) in
          subst ChildrenChecked same (ensure_children_checked proto load write temp d d' c q)

  read_in_checked :
      (id offset room : ℕ) (rec : InodeRecord) (i : Inode) (fs : FileSystem)
      → RecordChecked rec
      → InodeChecked i
      → FsChecked fs
      → FsChecked (read_in proto load write temp id offset room rec i fs).1
  read_in_checked id offset room rec (dir_inode d) fs c k v =
      set_inode_checked id rec (dir_inode (read_dir_inode proto load write offset room d).1) fs c
        (read_dir_inode_checked offset room d k) v
  read_in_checked id offset room rec (file_inode f) fs c k v = v
  read_in_checked id offset room rec (symlink_inode s) fs c k v = v

  on_look_up_checked :
      (parent : ℕ) (name : Bytes) (o : Option InodeRecord) (fs : FileSystem)
      → fs.inodes parent ≡ o
      → FsChecked fs
      → FsChecked (on_look_up proto load write temp parent name o fs).1
  on_look_up_checked parent name none fs q v = v
  on_look_up_checked parent name (some rec) fs q v =
      let c = v.inodes parent rec q in look_up_in_checked parent name rec rec.in_ fs c c.inode v

  on_read_dir_checked :
      (id offset room : ℕ) (o : Option InodeRecord) (fs : FileSystem)
      → fs.inodes id ≡ o
      → FsChecked fs
      → FsChecked (on_read_dir proto load write temp id offset room o fs).1
  on_read_dir_checked id offset room none fs q v = v
  on_read_dir_checked id offset room (some rec) fs q v =
      let c = v.inodes id rec q in read_in_checked id offset room rec rec.in_ fs c c.inode v

  on_read_file_checked :
      (handle offset n : ℕ) (o : Option FileHandle) (fs : FileSystem)
      → fs.file_handles handle ≡ o
      → FsChecked fs
      → FsChecked (on_read_file proto load write temp handle offset n o fs).1
  on_read_file_checked handle offset n none fs q v = v
  on_read_file_checked handle offset n (some fh) fs q v = record {
    inodes = v.inodes;
    file_handles =
        put_lem (λ h fh. h < fs.next_handle_id) handle _ fs.file_handles
          (v.file_handles handle fh q) v.file_handles;
  }

  -- Every operation, whatever its answer, keeps that the lookup counts are positive, that handles are
  -- below the next one, and that the children of a directory are indexed by their names and hold no
  -- hard link.
  pub serve-FsChecked :
      (op : Op) (fs : FileSystem) → FsChecked fs → FsChecked (serve proto load write temp op fs).1
  unfolding serve
  serve-FsChecked (get_inode_attributes i) fs v = on_attributes_checked (fs.inodes i) fs v
  serve-FsChecked (look_up_inode parent name) fs v =
      on_look_up_checked parent name (fs.inodes parent) fs refl v
  serve-FsChecked (forget_inode i n) fs v = on_forget_checked i n (fs.inodes i) fs refl v
  serve-FsChecked (read_dir i offset room) fs v =
      on_read_dir_checked i offset room (fs.inodes i) fs refl v
  serve-FsChecked (open_file i) fs v = on_open_checked (fs.inodes i) fs v
  serve-FsChecked (read_file h offset n) fs v =
      on_read_file_checked h offset n (fs.file_handles h) fs refl v
  serve-FsChecked (release_file_handle h) fs v = on_release_checked h (fs.file_handles h) fs v
  serve-FsChecked (read_symlink i) fs v = on_symlink_checked (fs.inodes i) fs v
