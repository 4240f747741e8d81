-- ===== src/Comebackfs/Server.antt =====
-- internal/comebackfs/fs.go: the operations that the kernel asks for. The directory handles, and what
-- the kernel is told about caching, carry nothing.
use comeback.Prelude.{ℕ, ◌+◌, ◌-◌, Option, none, some, List, [], ◌∷◌, ◌==◌, if◌then◌else◌, ltb}
use comeback.Prelude.Int.{pos}
use comeback.Prelude.Go.{Bytes, Error, message, wrap, Result, ok, err, panic}
use comeback.Blob.Score.{Score}
use comeback.Repr.Info.{zero_time, directory, FileInfo}
use comeback.Repr.Marshal.{Proto}
use comeback.Comebackfs.{
  InodeAttributes, Dirent, DirInode, Inode, dir_inode, file_inode, symlink_inode, InodeRecord,
  FileHandle, FileSystem, put, delete, attributes_of, look_up_or_create_inode,
}
use comeback.Comebackfs.Dir.{WriteDirent, look_up_child, read_dir_inode}
use comeback.Comebackfs.Handle.{TempFiles, read_at}

-- fuse.ENOENT
abbrev pub enoent : Error
enoent = message "ENOENT"

-- A fuseops.ChildInodeEntry.
pub record ChildEntry : Type 0 where
  pub child : ℕ
  pub attributes : InodeAttributes

-- The operations with state or an answer.
pub data Op : Type 0 where
  get_inode_attributes : (inode : ℕ) → Op
  look_up_inode : (parent : ℕ) (name : Bytes) → Op
  forget_inode : (inode n : ℕ) → Op
  read_dir : (inode offset room : ℕ) → Op
  open_file : (inode : ℕ) → Op
  read_file : (handle offset n : ℕ) → Op
  release_file_handle : (handle : ℕ) → Op
  read_symlink : (inode : ℕ) → Op

pub data Answer : Type 0 where
  inode_attributes : InodeAttributes → Answer
  child_entry : ChildEntry → Answer
  dirents : List Dirent → Answer
  opened : (handle : ℕ) → Answer
  bytes_read : Bytes → Answer
  target : Bytes → Answer
  nothing : Answer

abbrev pub empty_file_system : (uid gid : ℕ) → FileSystem
empty_file_system uid gid = record {
  uid = uid;
  gid = gid;
  inodes = λ i. none;
  next_handle_id = 0;
  file_handles = λ h. none;
}

-- The entry of the root: fuseops.RootInodeID is one, and the mode is 0500.
abbrev pub root_entry : Score → FileInfo
root_entry root_score = record {
  type = directory;
  name = [];
  permissions = 320;
  uid = 0;
  username = none;
  gid = 0;
  groupname = none;
  m_time = zero_time;
  size = 0;
  containing_device = pos 0;
  inode = 1;
  scores = root_score ∷ [];
  hard_link_target = none;
  target = [];
  device_number = pos 0;
}

unfoldable pub new_file_system : (uid gid : ℕ) → Score → Result FileSystem
new_file_system uid gid root_score =
    let (r, fs) = look_up_or_create_inode (root_entry root_score) (empty_file_system uid gid) in
    elim r [ ok _ ↦ ok fs | err e ↦ err (wrap "Creating root inode" e) | panic ↦ panic ]

-- An inode that has changed, in place.
abbrev pub set_inode : (id : ℕ) → InodeRecord → Inode → FileSystem → FileSystem
set_inode id rec i fs = record fs { inodes = put id (record rec { in_ = i }) fs.inodes }

abbrev pub entry_found : FileInfo → Result Inode × FileSystem → Result Answer × FileSystem
entry_found e (ok i, fs) =
    (ok (child_entry (record { child = e.inode; attributes = attributes_of i })), fs)
entry_found e (err x, fs) = (err (wrap "lookUpOrCreateInode" x), fs)
entry_found e (panic, fs) = (panic, fs)

abbrev pub child_found :
    (parent : ℕ)
    → InodeRecord
    → Result (Option FileInfo × DirInode)
    → FileSystem
    → Result Answer × FileSystem
child_found parent rec (err e) fs = (err (wrap "LookUpChild" e), fs)
child_found parent rec panic fs = (panic, fs)
child_found parent rec (ok (none, d)) fs = (err enoent, set_inode parent rec (dir_inode d) fs)
child_found parent rec (ok (some e, d)) fs =
    entry_found e (look_up_or_create_inode e (set_inode parent rec (dir_inode d) fs))

-- `rec.lookupCount -= op.N`, and the inode goes at zero.
abbrev pub forget : (id n : ℕ) → InodeRecord → FileSystem → FileSystem
forget id n rec fs =
    let left = rec.lookup_count - n in
    if left == 0
    then record fs { inodes = delete id fs.inodes }
    else record fs { inodes = put id (record rec { lookup_count = left }) fs.inodes }

abbrev pub answer_with {ℓ} : {A : Type ℓ} → (A → Answer) → Result A → Result Answer
answer_with f (ok a) = ok (f a)
answer_with f (err e) = err e
answer_with f panic = panic

-- An operation on an inode that is known.
abbrev pub on_attributes : Option InodeRecord → FileSystem → Result Answer × FileSystem
on_attributes none fs = (panic, fs)
on_attributes (some rec) fs = (ok (inode_attributes (attributes_of rec.in_)), fs)

abbrev pub on_forget : (id n : ℕ) → Option InodeRecord → FileSystem → Result Answer × FileSystem
on_forget id n none fs = (panic, fs)
on_forget id n (some rec) fs =
    if ltb rec.lookup_count n then (panic, fs) else (ok nothing, forget id n rec fs)

abbrev pub open_in : Inode → FileSystem → Result Answer × FileSystem
open_in (file_inode f) fs = (
  ok (opened fs.next_handle_id),
  record fs {
    next_handle_id = fs.next_handle_id + 1;
    file_handles =
        put fs.next_handle_id (record { scores = f.scores; file = none }) fs.file_handles;
  },
)
open_in _ fs = (panic, fs)

abbrev pub on_open : Option InodeRecord → FileSystem → Result Answer × FileSystem
on_open none fs = (panic, fs)
on_open (some rec) fs = open_in rec.in_ fs

-- `Destroy` reads through the nil pointer of a handle that is not there.
abbrev pub on_release : (handle : ℕ) → Option FileHandle → FileSystem → Result Answer × FileSystem
on_release handle none fs = (panic, fs)
on_release handle (some fh) fs =
    (ok nothing, record fs { file_handles = delete handle fs.file_handles })

abbrev pub target_of : Inode → FileSystem → Result Answer × FileSystem
target_of (symlink_inode s) fs = (ok (target s.target), fs)
target_of _ fs = (panic, fs)

abbrev pub on_symlink : Option InodeRecord → FileSystem → Result Answer × FileSystem
on_symlink none fs = (panic, fs)
on_symlink (some rec) fs = target_of rec.in_ fs

module _ (proto : Proto) (load : Score → Result Bytes) (write : WriteDirent)
    (temp : TempFiles) where
  abbrev pub look_up_in :
      (parent : ℕ) (name : Bytes) → InodeRecord → Inode → FileSystem → Result Answer × FileSystem
  look_up_in parent name rec (dir_inode d) fs =
      child_found parent rec (look_up_child proto load name d) fs
  look_up_in parent name rec _ fs = (panic, fs)

  abbrev pub on_look_up :
      (parent : ℕ) (name : Bytes) → Option InodeRecord → FileSystem → Result Answer × FileSystem
  on_look_up parent name none fs = (panic, fs)
  on_look_up parent name (some rec) fs = look_up_in parent name rec rec.in_ fs

  abbrev pub read_in :
      (id offset room : ℕ) → InodeRecord → Inode → FileSystem → Result Answer × FileSystem
  read_in id offset room rec (dir_inode d) fs =
      let (r, d') = read_dir_inode proto load write offset room d in
      (answer_with dirents r, set_inode id rec (dir_inode d') fs)
  read_in id offset room rec _ fs = (panic, fs)

  abbrev pub on_read_dir :
      (id offset room : ℕ) → Option InodeRecord → FileSystem → Result Answer × FileSystem
  on_read_dir id offset room none fs = (panic, fs)
  on_read_dir id offset room (some rec) fs = read_in id offset room rec rec.in_ fs

  abbrev pub on_read_file :
      (handle offset n : ℕ) → Option FileHandle → FileSystem → Result Answer × FileSystem
  on_read_file handle offset n none fs = (panic, fs)
  on_read_file handle offset n (some fh) fs =
      let (r, fh') = read_at load temp offset n fh in
      (answer_with bytes_read r, record fs { file_handles = put handle fh' fs.file_handles })

  unfoldable pub serve : Op → FileSystem → Result Answer × FileSystem
  serve (get_inode_attributes inode) fs = on_attributes (fs.inodes inode) fs
  serve (look_up_inode parent name) fs = on_look_up parent name (fs.inodes parent) fs
  serve (forget_inode inode n) fs = on_forget inode n (fs.inodes inode) fs
  serve (read_dir inode offset room) fs = on_read_dir inode offset room (fs.inodes inode) fs
  serve (open_file inode) fs = on_open (fs.inodes inode) fs
  serve (read_file handle offset n) fs = on_read_file handle offset n (fs.file_handles handle) fs
  serve (release_file_handle handle) fs = on_release handle (fs.file_handles handle) fs
  serve (read_symlink inode) fs = on_symlink (fs.inodes inode) fs
