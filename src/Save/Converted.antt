-- ===== src/Save/Converted.antt =====
-- internal/fs/convert_file_info.go: what a converted entry has of the file, and the mode that is
-- restored from it.
use mathlib.Core.Path.{subst}
use comeback.Prelude.{
  ℕ, ◌+◌, ◌*◌, ◌%◌, ◌^◌, ◌≡◌, refl, sym, ◌∙◌, Option, none, some, [], arith, ◌==◌, ◌&&◌, ltb, true,
}
use comeback.Prelude.Int.{ℤ, pos, negsuc}
use comeback.Prelude.Go.{Bytes, message, ok, err, panic, within, >>=-passes, within-eq-ok}
use comeback.Repr.Info.{
  FileType, file, directory, symlink, block_device, char_device, named_pipe, socket, other_type,
  FileInfo,
}
use comeback.Restore.Mode.{mode_bit}
use comeback.Save.Convert.{
  Stat, OsFileInfo, Lookup, found, not_found, failed, permissions_of, type_bits, type_of_bits,
  name_of, with_type, fill, convert_file_info,
}

-- The bits os.ModeDir, os.ModeSymlink, os.ModeDevice, os.ModeNamedPipe, os.ModeSocket and
-- os.ModeCharDevice of a mode.
abbrev pub TypeBits : (mode dir link device pipe sock char : ℕ) → Type 0
TypeBits mode dir link device pipe sock char =
    (mode_bit 31 mode ≡ dir)
    × (mode_bit 27 mode ≡ link)
    × (mode_bit 26 mode ≡ device)
    × (mode_bit 25 mode ≡ pipe)
    × (mode_bit 24 mode ≡ sock)
    × (mode_bit 21 mode ≡ char)

-- A mode is that of a file of a type.
abbrev pub HasType : (mode : ℕ) → FileType → Type 0
HasType mode file = TypeBits mode 0 0 0 0 0 0
HasType mode directory = TypeBits mode 1 0 0 0 0 0
HasType mode symlink = TypeBits mode 0 1 0 0 0 0
HasType mode block_device = TypeBits mode 0 0 1 0 0 0
HasType mode char_device = TypeBits mode 0 0 1 0 0 1
HasType mode named_pipe = TypeBits mode 0 0 0 1 0 0
HasType mode socket = TypeBits mode 0 0 0 0 1 0
HasType mode (other_type n) = ⊥

-- Two modes have the same permissions, and the same bits for setuid, setgid and sticky.
abbrev pub SamePermissions : (i j : ℕ) → Type 0
SamePermissions i j =
    (i % 512 ≡ j % 512)
    × (mode_bit 23 i ≡ mode_bit 23 j)
    × (mode_bit 22 i ≡ mode_bit 22 j)
    × (mode_bit 20 i ≡ mode_bit 20 j)

-- The name that a look-up gives, or none where it finds none.
abbrev pub IsName : Lookup → Option Bytes → Type 0
IsName (found name) (some n) = n ≡ name
IsName not_found none = Unit
IsName _ _ = ⊥

-- What the switch compares the bits for a type with.
abbrev code_of : FileType → Option ℕ
code_of file = some 0
code_of directory = some (2 ^ 31)
code_of symlink = some (2 ^ 27)
code_of block_device = some (2 ^ 26)
code_of char_device = some (2 ^ 26 + 2 ^ 21)
code_of named_pipe = some (2 ^ 25)
code_of socket = some (2 ^ 24)
code_of (other_type n) = none

code_of-type_of_bits : (b : ℕ) (t : FileType) → type_of_bits b ≡ some t → code_of t ≡ some b
unfolding type_of_bits
code_of-type_of_bits b t h = ground arith

abbrev bits_value : (dir link device pipe sock char : ℕ) → ℕ
bits_value dir link device pipe sock char =
    2 ^ 31 * dir + 2 ^ 27 * link + 2 ^ 26 * device + 2 ^ 25 * pipe + 2 ^ 24 * sock + 2 ^ 21 * char

-- Bits are found in the number that they make.
six_bits :
    (m n dir link device pipe sock char : ℕ)
    → type_bits m ≡ n
    → ltb dir 2
        && ltb link 2
        && ltb device 2
        && ltb pipe 2
        && ltb sock 2
        && ltb char 2
        && (n == bits_value dir link device pipe sock char)
      ≡ true
    → TypeBits m dir link device pipe sock char
unfolding type_bits
six_bits m n dir link device pipe sock char h e =
    (ground arith, ground arith, ground arith, ground arith, ground arith, ground arith)

ok_injective : {a b : FileInfo} → ok a ≡ ok b → a ≡ b
ok_injective h = ground arith

some_injective : (x y : ℕ) → some x ≡ some y → y ≡ x
some_injective x y h = ground arith

type_of_bits-HasType : (m : ℕ) (t : FileType) → code_of t ≡ some (type_bits m) → HasType m t
type_of_bits-HasType m file h = six_bits m 0 0 0 0 0 0 0 (some_injective _ _ h) refl
type_of_bits-HasType m directory h = six_bits m (2 ^ 31) 1 0 0 0 0 0 (some_injective _ _ h) refl
type_of_bits-HasType m symlink h = six_bits m (2 ^ 27) 0 1 0 0 0 0 (some_injective _ _ h) refl
type_of_bits-HasType m block_device h = six_bits m (2 ^ 26) 0 0 1 0 0 0 (some_injective _ _ h) refl
type_of_bits-HasType m char_device h =
    six_bits m (2 ^ 26 + 2 ^ 21) 0 0 1 0 0 1 (some_injective _ _ h) refl
type_of_bits-HasType m named_pipe h = six_bits m (2 ^ 25) 0 0 0 1 0 0 (some_injective _ _ h) refl
type_of_bits-HasType m socket h = six_bits m (2 ^ 24) 0 0 0 0 1 0 (some_injective _ _ h) refl
type_of_bits-HasType m (other_type n) h = cc

permissions_of-SamePermissions : (m : ℕ) → SamePermissions (permissions_of m) m
unfolding permissions_of
permissions_of-SamePermissions m = (omega arith, omega arith, omega arith, omega arith)

name_of-IsName : (l : Lookup) (n : Option Bytes) → name_of l ≡ ok n → IsName l n
name_of-IsName (found name) none h = cc
name_of-IsName (found name) (some n) h = ground arith
name_of-IsName not_found none h = tt
name_of-IsName not_found (some n) h = cc
name_of-IsName (failed e) n h = cc

-- What an entry has of the file that it was converted from.
pub record IsConverted (users groups : ℕ → Lookup) (info : OsFileInfo) (link : Bytes)
    (out : FileInfo) : Type 0 where
  pub stat : Stat
  pub sys : info.sys ≡ some stat
  pub type : HasType info.mode out.type
  pub name : out.name ≡ info.name
  pub permissions : SamePermissions out.permissions info.mode
  pub uid : out.uid ≡ stat.uid
  pub username : IsName (users stat.uid) out.username
  pub gid : out.gid ≡ stat.gid
  pub groupname : IsName (groups stat.gid) out.groupname
  pub m_time : out.m_time ≡ info.mod_time
  pub size : stat.size ≡ pos out.size
  pub containing_device : out.containing_device ≡ stat.dev
  pub inode : out.inode ≡ stat.ino
  pub scores : out.scores ≡ []
  pub target : out.target ≡ link

module _ (users groups : ℕ → Lookup) where
  with_type-IsConverted :
      (info : OsFileInfo) (target : Bytes) (stat : Stat) (size : ℕ) (u g : Option Bytes)
      (t : Option FileType) (out : FileInfo)
      → info.sys ≡ some stat
      → stat.size ≡ pos size
      → IsName (users stat.uid) u
      → IsName (groups stat.gid) g
      → type_of_bits (type_bits info.mode) ≡ t
      → with_type info target stat size u g t ≡ ok out
      → IsConverted users groups info target out
  with_type-IsConverted info target stat size u g none out e z n m q h = cc
  with_type-IsConverted info target stat size u g (some t) out e z n m q h =
      subst (IsConverted users groups info target) (ok_injective h) (record {
        stat = stat;
        sys = e;
        type = type_of_bits-HasType info.mode t (code_of-type_of_bits (type_bits info.mode) t q);
        name = refl;
        permissions = permissions_of-SamePermissions info.mode;
        uid = refl;
        username = n;
        gid = refl;
        groupname = m;
        m_time = refl;
        size = z;
        containing_device = refl;
        inode = refl;
        scores = refl;
        target = refl;
      })

  fill-IsConverted :
      (info : OsFileInfo) (target : Bytes) (stat : Stat) (size : ℕ) (out : FileInfo)
      → info.sys ≡ some stat
      → stat.size ≡ pos size
      → fill users groups info target stat size ≡ ok out
      → IsConverted users groups info target out
  fill-IsConverted info target stat size out e z k =
      let (u, n, k') = >>=-passes (within "Looking up user" (name_of (users stat.uid))) _ k in
      let (g, m, k'') = >>=-passes (within "Looking up group" (name_of (groups stat.gid))) _ k' in
      with_type-IsConverted info target stat size u g _ out e z
        (name_of-IsName (users stat.uid) u (within-eq-ok _ _ n))
        (name_of-IsName (groups stat.gid) g (within-eq-ok _ _ m)) refl k''

  pub convert_file_info-IsConverted :
      (info : OsFileInfo) (target : Bytes) (out : FileInfo)
      → convert_file_info users groups info target ≡ ok out
      → IsConverted users groups info target out
  unfolding convert_file_info
  convert_file_info-IsConverted info target out h = go info.sys refl
    where
      sized :
          (stat : Stat)
          → info.sys ≡ some stat
          → (z : ℤ) → stat.size ≡ z
          → IsConverted users groups info target out
      sized stat e (pos size) z =
          let same : convert_file_info users groups info target
              ≡ fill users groups info target stat size =
            rw (convert_file_info, e, z) refl in
          fill-IsConverted info target stat size out e z (sym same ∙ h)
      sized stat e (negsuc k) z =
          let same : convert_file_info users groups info target ≡ panic =
            rw (convert_file_info, e, z) refl in
          absurd (cc (same, h))

      go : (o : Option Stat) → info.sys ≡ o → IsConverted users groups info target out
      go none e =
          let same : convert_file_info users groups info target
              ≡ err (message "Unexpected sys value") =
            rw (convert_file_info, e) refl in
          absurd (cc (same, h))
      go (some stat) e = sized stat e stat.size refl
