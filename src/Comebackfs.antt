-- ===== src/Comebackfs.antt =====
-- internal/comebackfs: the file system that shows a backup. Its locks make the methods of an inode or
-- a handle, and the updates of the maps, single steps; here each operation is one step. A
-- `log.Fatalf`, which ends the program, is a panic. IDs and counts are 64-bit numbers, unbounded here.
pub mod Dir
pub mod Handle
pub mod Server
pub mod Checks
pub mod Serving
pub mod References
pub mod Refinement
pub mod Contents
pub mod Listing
mod Tests
use comeback.Prelude.{
  ℕ, ◌+◌, ◌-◌, ◌*◌, ◌^◌, Option, none, some, List, [], ◌∷◌, ◌==◌, if◌then◌else◌, length,
}
use comeback.Prelude.Go.{Bytes, Error, message, Result, ok, err, panic, within}
use comeback.Blob.Score.{Score}
use comeback.Repr.Info.{FileType, file, directory, symlink, Time, FileInfo}
use comeback.Restore.Mode.{mode_bit}

-- fuseops.InodeAttributes, as far as they are filled in.
pub record InodeAttributes : Type 0 where
  pub size : ℕ
  pub nlink : ℕ
  pub mode : ℕ
  pub mtime : Time
  pub ctime : Time
  pub uid : ℕ
  pub gid : ℕ

-- fuseutil.Dirent
pub data DirentType : Type 0 where
  dt_unknown dt_file dt_directory dt_link : DirentType

pub record Dirent : Type 0 where
  pub offset : ℕ
  pub inode : ℕ
  pub name : Bytes
  pub type : DirentType

-- The children are none before the blob has been read. A map by names has the latest entry first.
pub record DirInode : Type 0 where
  pub score : Score
  pub attrs : InodeAttributes
  pub children : Option (List (Bytes × FileInfo))
  pub listing : List Dirent

pub record FileInode : Type 0 where
  pub scores : List Score
  pub attrs : InodeAttributes

pub record SymlinkInode : Type 0 where
  pub attrs : InodeAttributes
  pub target : Bytes

pub data Inode : Type 0 where
  dir_inode : DirInode → Inode
  file_inode : FileInode → Inode
  symlink_inode : SymlinkInode → Inode

pub record InodeRecord : Type 0 where
  pub lookup_count : ℕ
  pub in_ : Inode

-- The contents of the anonymous file, or none before the blobs have been read.
pub record FileHandle : Type 0 where
  pub scores : List Score
  pub file : Option Bytes

pub record FileSystem : Type 0 where
  pub uid : ℕ
  pub gid : ℕ
  pub inodes : ℕ → Option InodeRecord
  pub next_handle_id : ℕ
  pub file_handles : ℕ → Option FileHandle

-- m[k] = v, and delete(m, k).
abbrev pub put : {A : Type 0} → ℕ → A → (ℕ → Option A) → ℕ → Option A
put k v m i = if i == k then some v else m i

abbrev pub delete : {A : Type 0} → ℕ → (ℕ → Option A) → ℕ → Option A
delete k m i = if i == k then none else m i

-- mode | 1<<k
abbrev pub with_bit : (k mode : ℕ) → ℕ
with_bit k mode = mode + 2 ^ k * (1 - mode_bit k mode)

-- The attributes of an inode with a mode; uid and gid are those of the file system.
abbrev pub attributes : FileInfo → (uid gid mode : ℕ) → InodeAttributes
attributes e uid gid mode = record {
  size = e.size;
  nlink = 1;
  mode = mode;
  mtime = e.m_time;
  ctime = e.m_time;
  uid = uid;
  gid = gid;
}

abbrev pub new_dir_inode : InodeAttributes → Score → DirInode
new_dir_inode attrs score = record { score = score; attrs = attrs; children = none; listing = [] }

-- The bits are those of os.ModeDir and os.ModeSymlink.
unfoldable pub create_inode : FileInfo → (uid gid : ℕ) → Result Inode
create_inode e uid gid = elim e.type [
  | directory ↦ elim e.scores [
    | score ∷ [] ↦
        ok (dir_inode (new_dir_inode (attributes e uid gid (with_bit 31 e.permissions)) score))
    | _ ↦ err (message "Unexpected score count for directory")
  ]
  | file ↦
      ok (file_inode (record { scores = e.scores; attrs = attributes e uid gid e.permissions }))
  | symlink ↦ ok (
      symlink_inode
        (record { attrs = attributes e uid gid (with_bit 27 e.permissions); target = e.target }))
  | _ ↦ err (message "Don't know how to handle type")
]

-- `in.Attributes()`
abbrev pub attributes_of : Inode → InodeAttributes
attributes_of (dir_inode d) = d.attrs
attributes_of (file_inode f) = f.attrs
attributes_of (symlink_inode s) = s.attrs

abbrev register : (id : ℕ) → Result Inode → FileSystem → Result Inode × FileSystem
register id (ok i) fs =
    (ok i, record fs { inodes = put id (record { lookup_count = 1; in_ = i }) fs.inodes })
register id (err e) fs = (err e, fs)
register id panic fs = (panic, fs)

abbrev count_look_up : FileInfo → Option InodeRecord → FileSystem → Result Inode × FileSystem
count_look_up e (some rec) fs = (
  ok rec.in_,
  record fs { inodes = put e.inode (record rec { lookup_count = rec.lookup_count + 1 }) fs.inodes },
)
count_look_up e none fs = register e.inode (within "createInode" (create_inode e fs.uid fs.gid)) fs

unfoldable pub look_up_or_create_inode : FileInfo → FileSystem → Result Inode × FileSystem
look_up_or_create_inode e fs = count_look_up e (fs.inodes e.inode) fs
