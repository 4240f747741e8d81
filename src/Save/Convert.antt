-- ===== src/Save/Convert.antt =====
-- internal/fs/convert_file_info.go: `convertFileInfo`.
-- The registries of users and groups are parameters, as is the file's entry of the system. A mode is a
-- number of 32 bits, with the bits of Go's os.FileMode.
use comeback.Prelude.{ℕ, ◌+◌, ◌*◌, ◌%◌, ◌^◌, Option, none, some, [], if◌then◌else◌, ◌==◌}
use comeback.Prelude.Int.{ℤ, pos, negsuc}
use comeback.Prelude.Go.{Bytes, Error, message, Result, ok, err, panic, within, ◌>>=◌}
use comeback.Repr.Info.{
  FileType, file, directory, symlink, block_device, char_device, named_pipe, socket, Time, FileInfo,
}
use comeback.Repr.Convert.{is_device}
use comeback.Restore.Mode.{mode_bit}

-- syscall.Stat_t, as far as it is read here.
pub record Stat : Type 0 where
  pub size : ℤ
  pub uid : ℕ
  pub gid : ℕ
  pub dev : ℤ
  pub ino : ℕ
  pub rdev : ℤ

-- os.FileInfo; `sys` is none where it holds no Stat_t.
pub record OsFileInfo : Type 0 where
  pub name : Bytes
  pub mode : ℕ
  pub mod_time : Time
  pub sys : Option Stat

-- What a registry finds for an identifier.
pub data Lookup : Type 0 where
  found : Bytes → Lookup
  not_found : Lookup
  failed : Error → Lookup

-- mode & permissionBits
unfoldable pub permissions_of : ℕ → ℕ
permissions_of mode =
    mode % 512 + 2 ^ 23 * mode_bit 23 mode + 2 ^ 22 * mode_bit 22 mode + 2 ^ 20 * mode_bit 20 mode

-- mode & (os.ModeType | os.ModeCharDevice): the bits for directories, symlinks, devices, named pipes,
-- sockets and character devices, as Go had them when the code was written (without irregular files).
unfoldable pub type_bits : ℕ → ℕ
type_bits mode =
    2 ^ 31 * mode_bit 31 mode
    + 2 ^ 27 * mode_bit 27 mode
    + 2 ^ 26 * mode_bit 26 mode
    + 2 ^ 25 * mode_bit 25 mode
    + 2 ^ 24 * mode_bit 24 mode
    + 2 ^ 21 * mode_bit 21 mode

-- The switch on the type bits.
unfoldable pub type_of_bits : ℕ → Option FileType
type_of_bits t =
    if t == 0
    then some file
    else if t == 2 ^ 31
    then some directory
    else if t == 2 ^ 27
    then some symlink
    else if t == 2 ^ 26
    then some block_device
    else if t == 2 ^ 26 + 2 ^ 21
    then some char_device
    else if t == 2 ^ 25
    then some named_pipe
    else if t == 2 ^ 24
    then some socket
    else none

abbrev pub name_of : Lookup → Result (Option Bytes)
name_of (found name) = ok (some name)
name_of not_found = ok none
name_of (failed e) = err e

abbrev pub with_type :
    OsFileInfo
    → (target : Bytes) → Stat
    → (size : ℕ) → (username groupname : Option Bytes) → Option FileType
    → Result FileInfo
with_type info target stat size username groupname none = err (message "Unhandled mode")
with_type info target stat size username groupname (some t) = ok (record {
  type = t;
  name = info.name;
  permissions = permissions_of info.mode;
  uid = stat.uid;
  username = username;
  gid = stat.gid;
  groupname = groupname;
  m_time = info.mod_time;
  size = size;
  containing_device = stat.dev;
  inode = stat.ino;
  scores = [];
  hard_link_target = none;
  target = target;
  device_number = if is_device t then stat.rdev else pos 0;
})

module _ (users groups : ℕ → Lookup) where
  abbrev pub fill : OsFileInfo → (symlink_target : Bytes) → Stat → (size : ℕ) → Result FileInfo
  fill info target stat size = do
    username ← within "Looking up user" (name_of (users stat.uid))
    groupname ← within "Looking up group" (name_of (groups stat.gid))
    with_type info target stat size username groupname (type_of_bits (type_bits info.mode))

  -- The panic is for a negative size.
  unfoldable pub convert_file_info : OsFileInfo → (symlink_target : Bytes) → Result FileInfo
  unfolding permissions_of type_of_bits type_bits
  convert_file_info info target = elim info.sys [
    | none ↦ err (message "Unexpected sys value")
    | some stat ↦ elim stat.size [ negsuc _ ↦ panic | pos size ↦ fill info target stat size ]
  ]
