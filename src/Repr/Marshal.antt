-- ===== src/Repr/Marshal.antt =====
-- internal/repr/marshal.go and unmarshal.go: listings and files to bytes and back.
-- The encoding of messages in bytes is a parameter.
use comeback.Prelude.{
  ℕ, ◌≡◌, refl, Bool, true, false, Option, none, some, List, [], ◌∷◌, ◌++◌, map, arith, All,
  if◌then◌else◌, ◌==◌,
}
use comeback.Prelude.Go.{
  >>=-passes, within-eq-ok, Bytes, Error, message, Result, ok, err, panic, within, ◌>>=◌,
}
use comeback.Repr.Info.{
  FileType, socket, other_type, FileInfo, IsFileInfo, FileInfoProto, DirectoryListingProto,
}
use comeback.Repr.Convert.{
  make_info_proto, convert_entry_proto, kept, convert_entry_proto-make_info_proto,
}

-- proto.Marshal and proto.Unmarshal for directory listings.
pub record Proto : Type 0 where
  pub marshal : DirectoryListingProto → Result Bytes
  pub unmarshal : Bytes → Result DirectoryListingProto

abbrev magic_byte_dir : ℕ
magic_byte_dir = b'd'

abbrev magic_byte_file : ℕ
magic_byte_file = b'f'

-- The loop of `MarshalDir`.
abbrev pub make_info_protos : List FileInfo → Result (List FileInfoProto)
make_info_protos [] = ok []
make_info_protos (fi ∷ listing) = do
  p ← make_info_proto fi
  protos ← make_info_protos listing
  ok (p ∷ protos)

unfoldable pub marshal_dir : Proto → List FileInfo → Result Bytes
marshal_dir proto listing = do
  protos ← make_info_protos listing
  d ← within "proto.Marshal" (proto.marshal (record { entry = protos }))
  ok (d ++ magic_byte_dir ∷ [])

unfoldable pub marshal_file : Bytes → Result Bytes
marshal_file contents = ok (contents ++ magic_byte_file ∷ [])

-- d[l-1], unless l is 0.
abbrev last : Bytes → Option ℕ
last [] = none
last (c ∷ []) = some c
last (c ∷ d ∷ s) = last (d ∷ s)

-- d[:l-1]
abbrev but_last : Bytes → Bytes
but_last [] = []
but_last (c ∷ []) = []
but_last (c ∷ d ∷ s) = c ∷ but_last (d ∷ s)

-- The contents before the magic byte.
abbrev strip : (magic : ℕ) → Error → Bytes → Result Bytes
strip magic e d = elim (last d) [
  | none ↦ err e
  | some c ↦ if c == magic then ok (but_last d) else err e
]

-- The loop of `UnmarshalDir`.
abbrev pub convert_entry_protos : List FileInfoProto → Result (List FileInfo)
convert_entry_protos [] = ok []
convert_entry_protos (p ∷ ps) = do
  entry ← convert_entry_proto p
  listing ← convert_entry_protos ps
  ok (entry ∷ listing)

unfoldable pub unmarshal_dir : Proto → Bytes → Result (List FileInfo)
unmarshal_dir proto d = do
  d ← strip magic_byte_dir (message "Not a directory") d
  listing_proto ← within "Parsing data" (proto.unmarshal d)
  convert_entry_protos listing_proto.entry

unfoldable pub unmarshal_file : Bytes → Result Bytes
unmarshal_file f = strip magic_byte_file (message "Not a file") f

last-append : (s : Bytes) (c : ℕ) → last (s ++ c ∷ []) ≡ some c
last-append [] c = refl
last-append (a ∷ []) c = refl
last-append (a ∷ b ∷ s) c = last-append (b ∷ s) c

but_last-append : (s : Bytes) (c : ℕ) → but_last (s ++ c ∷ []) ≡ s
but_last-append [] c = refl
but_last-append (a ∷ []) c = refl
but_last-append (a ∷ b ∷ s) c = ground (arith, but_last-append (b ∷ s) c)

convert-make :
    (listing : List FileInfo) (protos : List FileInfoProto)
    → All IsFileInfo listing
    → make_info_protos listing ≡ ok protos
    → convert_entry_protos protos ≡ ok (map kept listing)
convert-make [] protos v h = ground arith
convert-make (fi ∷ listing) protos v h =
    let (p, e, h') = >>=-passes (make_info_proto fi) _ h in
    let (ps, es, h'') = >>=-passes (make_info_protos listing) _ h' in
    let one = convert_entry_proto-make_info_proto fi p v.0 e in
    let rest = convert-make listing ps v.1 es in ground arith

-- A listing of well-formed entries that is marshalled is read back from its bytes, as far as it is
-- kept, if the encoding of messages reads back what it has written for the listing.
pub unmarshal_dir-marshal_dir :
    (proto : Proto) (listing : List FileInfo) (d : Bytes)
    → ((protos : List FileInfoProto) (e : Bytes)
        → make_info_protos listing ≡ ok protos
        → proto.marshal (record { entry = protos }) ≡ ok e
        → proto.unmarshal e ≡ ok (record { entry = protos }))
    → All IsFileInfo listing
    → marshal_dir proto listing ≡ ok d
    → unmarshal_dir proto d ≡ ok (map kept listing)
unfolding marshal_dir unmarshal_dir
unmarshal_dir-marshal_dir proto listing d law v h =
    let (protos, made, h') = >>=-passes (make_info_protos listing) _ h in
    let (e, written, h'') =
      >>=-passes (within "proto.Marshal" (proto.marshal (record { entry = protos }))) _ h' in
    let read = law protos e made (within-eq-ok _ _ written) in
    ground (
      arith,
      last-append e magic_byte_dir,
      but_last-append e magic_byte_dir,
      convert-make listing protos v made,
    )

pub unmarshal_file-append :
    (contents : Bytes) → unmarshal_file (contents ++ b'f' ∷ []) ≡ ok contents
unfolding unmarshal_file
unmarshal_file-append contents =
    ground (arith, last-append contents magic_byte_file, but_last-append contents magic_byte_file)

-- The contents of a file are read back, and not as a listing; the bytes of a listing are not read as
-- those of a file.
pub marshal_lem :
    (proto : Proto) (contents f d : Bytes) (listing : List FileInfo)
    → marshal_file contents ≡ ok f
    → marshal_dir proto listing ≡ ok d
    → (unmarshal_file f ≡ ok contents)
      × (unmarshal_dir proto f ≡ err (message "Not a directory"))
      × (unmarshal_file d ≡ err (message "Not a file"))
unfolding marshal_file marshal_dir unmarshal_file unmarshal_dir
marshal_lem proto contents f d listing hf hd =
    let (protos, made, h') = >>=-passes (make_info_protos listing) _ hd in
    let (e, written, h'') =
      >>=-passes (within "proto.Marshal" (proto.marshal (record { entry = protos }))) _ h' in
    (
      ground
          (arith, last-append contents magic_byte_file, but_last-append contents magic_byte_file),
      ground (arith, last-append contents magic_byte_file),
      ground (arith, last-append e magic_byte_dir),
    )

-- The kinds of file that a listing can hold.
abbrev pub is_stored : FileType → Bool
is_stored socket = false
is_stored (other_type _) = false
is_stored _ = true

abbrev pub all_stored : List FileInfo → Bool
all_stored [] = true
all_stored (fi ∷ listing) = if is_stored fi.type then all_stored listing else false

abbrev pub is_ok {ℓ} : {A : Type ℓ} → Result A → Bool
is_ok (ok a) = true
is_ok _ = false

is_ok-make_info_proto : (fi : FileInfo) → is_ok (make_info_proto fi) ≡ is_stored fi.type
unfolding make_info_proto
is_ok-make_info_proto fi = ground arith

is_ok-make_info_protos :
    (listing : List FileInfo) → is_ok (make_info_protos listing) ≡ all_stored listing
is_ok-make_info_protos [] = refl
is_ok-make_info_protos (fi ∷ listing) =
    ground (arith, is_ok-make_info_proto fi, is_ok-make_info_protos listing)

-- A listing is marshalled exactly when it holds no socket and nothing of an unknown type, if the
-- encoding of messages never fails.
pub is_ok-marshal_dir :
    (proto : Proto) (listing : List FileInfo)
    → ((l : DirectoryListingProto) → is_ok (proto.marshal l) ≡ true)
    → is_ok (marshal_dir proto listing) ≡ all_stored listing
unfolding marshal_dir
is_ok-marshal_dir proto listing law = go (make_info_protos listing) refl
  where
    go :
        (r : Result (List FileInfoProto))
        → make_info_protos listing ≡ r
        → is_ok (marshal_dir proto listing) ≡ all_stored listing
    go (ok ps) e = ground (arith, is_ok-make_info_protos listing, law (record { entry = ps }))
    go (err x) e = ground (arith, is_ok-make_info_protos listing)
    go panic e = ground (arith, is_ok-make_info_protos listing)
