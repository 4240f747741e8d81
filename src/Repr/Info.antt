-- ===== src/Repr/Info.antt =====
-- internal/fs/file_info.go and the messages of internal/repr/proto/comeback.pb.go.
-- A nil slice is an empty one. An instant is a number of seconds since 1970 and a nanosecond.
use comeback.Prelude.{ℕ, ◌<◌, Option, none, some, List, All}
use comeback.Prelude.Int.{ℤ, pos, negsuc}
use comeback.Prelude.Go.{Bytes}
use comeback.Blob.Score.{Score, IsScore}

-- fs.Type, a uint32 with named values.
pub data FileType : Type 0 where
  file directory symlink block_device char_device named_pipe socket : FileType
  other_type : ℕ → FileType

pub record Time : Type 0 where
  pub second : ℤ
  pub nanosecond : ℕ

-- time.Time{}, the start of the year 1.
abbrev pub zero_time : Time
zero_time = record { second = negsuc 62135596799; nanosecond = 0 }

pub record FileInfo : Type 0 where
  pub type : FileType
  pub name : Bytes
  pub permissions : ℕ
  pub uid : ℕ
  pub username : Option Bytes
  pub gid : ℕ
  pub groupname : Option Bytes
  pub m_time : Time
  pub size : ℕ
  pub containing_device : ℤ
  pub inode : ℕ
  pub scores : List Score
  pub hard_link_target : Option Bytes
  pub target : Bytes
  pub device_number : ℤ

-- The nanosecond is one of its second, and a score has its length.
pub record IsFileInfo (entry : FileInfo) : Type 0 where
  pub within_second : entry.m_time.nanosecond < 1000000000
  pub scores : All IsScore entry.scores

-- FileInfoProto_Type, an int32 with named values.
pub data ProtoType : Type 0 where
  type_unknown type_file type_directory type_symlink type_block_device : ProtoType
  type_char_device type_named_pipe : ProtoType
  other_proto_type : ℤ → ProtoType

pub record BlobInfoProto : Type 0 where
  pub hash : Bytes

pub record TimeProto : Type 0 where
  pub second : Option ℤ
  pub nanosecond : Option ℕ

pub record FileInfoProto : Type 0 where
  pub type : Option ProtoType
  pub permissions : Option ℕ
  pub uid : Option ℕ
  pub username : Option Bytes
  pub gid : Option ℕ
  pub groupname : Option Bytes
  pub name : Option Bytes
  pub mtime : Option TimeProto
  pub blob : List BlobInfoProto
  pub hard_link_target : Option Bytes
  pub target : Option Bytes
  pub device_number : Option ℤ
  pub inode : Option ℕ
  pub size : Option ℕ

pub record DirectoryListingProto : Type 0 where
  pub entry : List FileInfoProto

-- The body of the getters of the messages: the value, or the default of a missing field.
abbrev pub get {ℓ} : {A : Type ℓ} → Option A → (default : A) → A
get none a = a
get (some b) a = b

abbrev pub get_second : Option TimeProto → ℤ
get_second none = pos 0
get_second (some m) = get m.second (pos 0)

abbrev pub get_nanosecond : Option TimeProto → ℕ
get_nanosecond none = 0
get_nanosecond (some m) = get m.nanosecond 0
