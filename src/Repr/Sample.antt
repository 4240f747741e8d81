-- ===== src/Repr/Sample.antt =====
-- A listing of a file, a symlink and a device, and an encoding that keeps one listing.
use comeback.Prelude.{◌≡◌, refl, Option, none, some, List, [], ◌∷◌, arith, All}
use comeback.Prelude.Int.{ℤ, pos, negsuc}
use comeback.Prelude.Go.{Bytes, codes, ok}
use comeback.Repr.Info.{
  FileType, file, symlink, char_device, FileInfo, IsFileInfo, ProtoType, type_file, type_symlink,
  type_char_device, BlobInfoProto, FileInfoProto,
}
use comeback.Repr.Convert.{make_info_proto}
use comeback.Repr.Marshal.{Proto, make_info_protos, marshal_dir}

abbrev pub entry_of : FileType → FileInfo
entry_of t = record {
  type = t;
  name = codes "name";
  permissions = 420;
  uid = 501;
  username = some (codes "jacobsa");
  gid = 20;
  groupname = none;
  m_time = record { second = negsuc 4; nanosecond = 7 };
  size = 3;
  containing_device = pos 1;
  inode = 17;
  scores = codes "abcdefghijklmnopqrst" ∷ [];
  hard_link_target = none;
  target = codes "there";
  device_number = pos 2;
}

abbrev pub listing : List FileInfo
listing = entry_of file ∷ entry_of symlink ∷ entry_of char_device ∷ []

pub listing-IsFileInfo : All IsFileInfo listing
listing-IsFileInfo = (entry, (entry, (entry, tt)))
  where
    entry : {t : FileType} → IsFileInfo (entry_of t)
    entry = record { within_second = omega arith; scores = ground arith }

-- The messages of the listing.
abbrev pub blob_proto : BlobInfoProto
blob_proto = record { hash = codes "abcdefghijklmnopqrst" }

abbrev pub proto_of : ProtoType → Option Bytes → Option ℤ → FileInfoProto
proto_of t target device = record {
  type = some t;
  permissions = some 420;
  uid = some 501;
  username = some (codes "jacobsa");
  gid = some 20;
  groupname = none;
  name = some (codes "name");
  mtime = some (record { second = some (negsuc 4); nanosecond = some 7 });
  blob = blob_proto ∷ [];
  hard_link_target = none;
  target = target;
  device_number = device;
  inode = some 17;
  size = some 3;
}

abbrev pub messages : List FileInfoProto
messages =
    proto_of type_file none none
    ∷ proto_of type_symlink (some (codes "there")) none
    ∷ proto_of type_char_device none (some (pos 2))
    ∷ []

abbrev pub proto : Proto
proto = record {
  marshal = λ l. ok (codes "encoded");
  unmarshal = λ d. ok (record { entry = messages });
}

pub made : make_info_protos listing ≡ ok messages
unfolding make_info_proto
made = refl

pub codec_law :
    (protos : List FileInfoProto) (e : Bytes)
    → make_info_protos listing ≡ ok protos
    → proto.marshal (record { entry = protos }) ≡ ok e
    → proto.unmarshal e ≡ ok (record { entry = protos })
codec_law protos e h k = let same : messages ≡ protos = ground (arith, made) in rw same refl

pub marshalled : marshal_dir proto listing ≡ ok (codes "encodedd")
unfolding marshal_dir make_info_proto
marshalled = refl
