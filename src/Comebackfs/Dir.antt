-- ===== src/Comebackfs/Dir.antt =====
-- internal/comebackfs/dir_inode.go. The encoding of listings and the blob store are parameters.
use comeback.Prelude.{
  ℕ, suc, ◌+◌, ◌-◌, zero, Option, none, some, List, [], ◌∷◌, ◌==◌, if◌then◌else◌, length, ltb,
  is_some,
}
use comeback.Prelude.Go.{Bytes, message, Result, ok, err, panic, within, ◌>>=◌, eq_bytes}
use comeback.Blob.Score.{Score}
use comeback.Repr.Info.{FileType, file, directory, symlink, FileInfo}
use comeback.Repr.Marshal.{Proto, unmarshal_dir}
use comeback.Comebackfs.{Dirent, DirentType, dt_unknown, dt_file, dt_directory, dt_link, DirInode}

-- children[name]
abbrev pub find_child : Bytes → List (Bytes × FileInfo) → Option FileInfo
find_child name [] = none
find_child name ((k, v) ∷ m) = if eq_bytes k name then some v else find_child name m

abbrev pub convert_entry_type : FileType → DirentType
convert_entry_type file = dt_file
convert_entry_type directory = dt_directory
convert_entry_type symlink = dt_link
convert_entry_type _ = dt_unknown

-- The loop that indexes the entries by their names.
unfoldable pub index_entries :
    List FileInfo → List (Bytes × FileInfo) → Result (List (Bytes × FileInfo))
index_entries [] children = ok children
index_entries (e ∷ es) children =
    let rest = index_entries es ((e.name, e) ∷ children) in
    if is_some e.hard_link_target
    then err (message "Hard link enountered.")
    else if is_some (find_child e.name children)
    then err (message "Duplicate name")
    else rest

-- The loop that makes the listing, from the entry of index `i`.
unfoldable pub make_listing : (i : ℕ) → List FileInfo → List Dirent
make_listing i [] = []
make_listing i (e ∷ es) =
    record { offset = i + 1; inode = e.inode; name = e.name; type = convert_entry_type e.type }
    ∷ make_listing (i + 1) es

-- d.listing[n:]
abbrev pub drop : {A : Type 0} → ℕ → List A → List A
drop zero xs = xs
drop (suc n) [] = []
drop (suc n) (x ∷ xs) = drop n xs

-- fuseutil.WriteDirent: how many bytes it writes to a slice of a length, zero if there is no room.
abbrev pub WriteDirent : Type 0
WriteDirent = (room : ℕ) → Dirent → ℕ

-- The loop that writes the entries in range to `room` bytes: those that were written.
unfoldable pub write_dirents : WriteDirent → (room : ℕ) → List Dirent → List Dirent
write_dirents write room [] = []
write_dirents write room (de ∷ des) =
    let rest = write_dirents write (room - write room de) des in
    if write room de == 0 then [] else de ∷ rest

module _ (proto : Proto) (load : Score → Result Bytes) where
  abbrev pub read_children : DirInode → Result DirInode
  read_children d = do
    contents ← within "blobStore.Load" (load d.score)
    entries ← within "UnmarshalDir" (unmarshal_dir proto contents)
    children ← index_entries entries []
    ok (record d { children = some children; listing = make_listing 0 entries })

  -- The inode after it.
  unfoldable pub ensure_children : DirInode → Result DirInode
  ensure_children d = elim d.children [ some children ↦ ok d | none ↦ read_children d ]

  abbrev children_of : DirInode → List (Bytes × FileInfo)
  children_of d = elim d.children [ some children ↦ children | none ↦ [] ]

  unfoldable pub look_up_child : Bytes → DirInode → Result (Option FileInfo × DirInode)
  look_up_child name d = do
    d' ← within "ensureChildren" (ensure_children d)
    ok (find_child name (children_of d'), d')

  -- `Read`: the entries that are written, to `room` bytes. An error leaves a listing that was read.
  unfoldable pub read_dir_inode :
      WriteDirent → (offset room : ℕ) → DirInode → Result (List Dirent) × DirInode
  read_dir_inode write offset room d = elim (within "ensureChildren" (ensure_children d)) [
    | err e ↦ (err e, d)
    | panic ↦ (panic, d)
    | ok d' ↦
        if ltb (length d'.listing) offset
        then (err (message "Out of range offset"), d')
        else (ok (write_dirents write room (drop offset d'.listing)), d')
  ]
