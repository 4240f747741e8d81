-- ===== src/Repr/Convert.antt =====
-- internal/repr/marshal.go and unmarshal.go: one entry of a listing to a message and back.
use comeback.Prelude.{
  ℕ, zero, suc, ◌/◌, ◌%◌, ◌<◌, ◌≡◌, refl, Bool, true, false, Option, none, some, List, [], ◌∷◌,
  arith, All, if◌then◌else◌, ◌==◌, length,
}
use comeback.Prelude.Int.{ℤ, pos, increment}
use comeback.Prelude.Go.{message, Result, ok, err, ◌>>=◌}
use comeback.Blob.Score.{Score, IsScore, score_length}
use comeback.Repr.Info.{
  FileType, file, directory, symlink, block_device, char_device, named_pipe, Time, FileInfo,
  IsFileInfo, ProtoType, type_unknown, type_file, type_directory, type_symlink, type_block_device,
  type_char_device, type_named_pipe, BlobInfoProto, TimeProto, FileInfoProto, get, get_second,
  get_nanosecond,
}

abbrev pub is_symlink : FileType → Bool
is_symlink symlink = true
is_symlink _ = false

abbrev pub is_device : FileType → Bool
is_device block_device = true
is_device char_device = true
is_device _ = false

abbrev pub convert_type : FileType → Result ProtoType
convert_type file = ok type_file
convert_type directory = ok type_directory
convert_type symlink = ok type_symlink
convert_type block_device = ok type_block_device
convert_type char_device = ok type_char_device
convert_type named_pipe = ok type_named_pipe
convert_type _ = err (message "Unrecognized EntryType")

abbrev pub make_blob_protos : List Score → List BlobInfoProto
make_blob_protos [] = []
make_blob_protos (s ∷ ss) = record { hash = s } ∷ make_blob_protos ss

unfoldable pub make_info_proto : FileInfo → Result FileInfoProto
make_info_proto entry = do
  type_enum ← convert_type entry.type
  ok (record {
    type = some type_enum;
    permissions = some entry.permissions;
    uid = some entry.uid;
    username = entry.username;
    gid = some entry.gid;
    groupname = entry.groupname;
    name = some entry.name;
    mtime =
        some
          (record { second = some entry.m_time.second; nanosecond = some entry.m_time.nanosecond });
    blob = make_blob_protos entry.scores;
    hard_link_target = entry.hard_link_target;
    target = if is_symlink entry.type then some entry.target else none;
    device_number = if is_device entry.type then some entry.device_number else none;
    inode = some entry.inode;
    size = some entry.size;
  })

abbrev pub convert_proto_type : ProtoType → Result FileType
convert_proto_type type_file = ok file
convert_proto_type type_directory = ok directory
convert_proto_type type_symlink = ok symlink
convert_proto_type type_block_device = ok block_device
convert_proto_type type_char_device = ok char_device
convert_proto_type type_named_pipe = ok named_pipe
convert_proto_type _ = err (message "Unrecognized FileInfoProto_Type")

abbrev pub add_seconds : ℤ → ℕ → ℤ
add_seconds s zero = s
add_seconds s (suc k) = increment (add_seconds s k)

-- time.Unix(second, nanosecond)
unfoldable pub unix : ℤ → ℕ → Time
unix second nanosecond = record {
  second = add_seconds second (nanosecond / 1000000000);
  nanosecond = nanosecond % 1000000000;
}

unfoldable pub convert_time_proto : Option TimeProto → Result Time
unfolding unix
convert_time_proto p = ok (unix (get_second p) (get_nanosecond p))

abbrev pub convert_blob_info_proto : BlobInfoProto → Result Score
convert_blob_info_proto p =
    if length p.hash == score_length then ok p.hash else err (message "Illegal hash length")

-- The loop over `entryProto.Blob`.
abbrev pub convert_blobs : List BlobInfoProto → Result (List Score)
convert_blobs [] = ok []
convert_blobs (p ∷ ps) = do
  score ← convert_blob_info_proto p
  scores ← convert_blobs ps
  ok (score ∷ scores)

unfoldable pub convert_entry_proto : FileInfoProto → Result FileInfo
unfolding convert_time_proto
convert_entry_proto p = do
  type ← convert_proto_type (get p.type type_unknown)
  m_time ← convert_time_proto p.mtime
  scores ← convert_blobs p.blob
  ok (record {
    type = type;
    name = get p.name [];
    permissions = get p.permissions 0;
    uid = get p.uid 0;
    username = p.username;
    gid = get p.gid 0;
    groupname = p.groupname;
    m_time = m_time;
    size = get p.size 0;
    containing_device = pos 0;
    inode = get p.inode 0;
    scores = scores;
    hard_link_target = p.hard_link_target;
    target = get p.target [];
    device_number = get p.device_number (pos 0);
  })

-- What a listing keeps of an entry: not the containing device, the target only of a symlink, and the
-- device number only of a device.
abbrev pub kept : FileInfo → FileInfo
kept entry = record entry {
  containing_device = pos 0;
  target = if is_symlink entry.type then entry.target else [];
  device_number = if is_device entry.type then entry.device_number else pos 0;
}

convert_proto_type-convert_type :
    (t : FileType) (u : ProtoType) → convert_type t ≡ ok u → convert_proto_type u ≡ ok t
convert_proto_type-convert_type t u h = ground arith

unix_lem : (t : Time) → t.nanosecond < 1000000000 → unix t.second t.nanosecond ≡ t
unfolding unix
unix_lem t h =
    let d : t.nanosecond / 1000000000 ≡ 0 = omega arith in
    let m : t.nanosecond % 1000000000 ≡ t.nanosecond = omega arith in rw (d, m) refl

convert_blobs-make :
    (ss : List Score) → All IsScore ss → convert_blobs (make_blob_protos ss) ≡ ok ss
convert_blobs-make [] h = refl
convert_blobs-make (s ∷ ss) h = ground (arith, convert_blobs-make ss h.1)

-- An entry that has a message is read back from it, as far as the listing keeps it.
pub convert_entry_proto-make_info_proto :
    (entry : FileInfo) (p : FileInfoProto)
    → IsFileInfo entry
    → make_info_proto entry ≡ ok p
    → convert_entry_proto p ≡ ok (kept entry)
unfolding make_info_proto convert_entry_proto convert_time_proto
convert_entry_proto-make_info_proto entry p v h =
    ground (arith, unix_lem entry.m_time v.within_second, convert_blobs-make entry.scores v.scores)
