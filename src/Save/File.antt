-- ===== src/Save/File.antt =====
-- internal/save/visitor.go: `saveFile` and `saveFileChunk`, and internal/save/score_map.go.
-- The outcome of acquiring the semaphore for a chunk is a parameter, since it depends on the other
-- workers and on the context; that the semaphore is released at the end of a chunk is left out.
use comeback.Prelude.{
  ℕ, zero, suc, Bool, true, false, ◌||◌, ◌&&◌, not, Option, none, some, List, [], ◌∷◌, ◌++◌,
  if◌then◌else◌, length, is_empty, ltb,
}
use comeback.Prelude.Int.{ℤ, pos, negsuc}
use comeback.Prelude.Go.{Bytes, Error, Result, ok, err, panic, within}
use comeback.Blob.Score.{Score}
use comeback.Blob.Store.{Store}
use comeback.Repr.Info.{FileType, file, Time, FileInfo}
use comeback.Repr.Convert.{add_seconds}
use comeback.Repr.Marshal.{marshal_file}

-- The fields of an `fsNode` that are read here.
pub record FsNode : Type 0 where
  pub rel_path : Bytes
  pub info : FileInfo

-- state.ScoreMapKey
pub record ScoreMapKey : Type 0 where
  pub path : Bytes
  pub permissions : ℕ
  pub uid : ℕ
  pub gid : ℕ
  pub m_time : Time
  pub inode : ℕ
  pub size : ℕ

-- state.ScoreMap: `none` is nil.
pub record ScoreMap (M : Type 0) : Type 0 where
  pub set : ScoreMapKey → List Score → M → M
  pub get : ScoreMapKey → M → Option (List Score)

abbrev pub is_file : FileType → Bool
is_file file = true
is_file _ = false

-- x < y on seconds
abbrev pub less : ℤ → ℤ → Bool
less (pos x) (pos y) = ltb x y
less (pos x) (negsuc y) = false
less (negsuc x) (pos y) = true
less (negsuc x) (negsuc y) = ltb y x

-- t.Before(u)
abbrev pub before : Time → Time → Bool
before t u =
    less t.second u.second || (not (less u.second t.second) && ltb t.nanosecond u.nanosecond)

abbrev min_elapsed_seconds : ℕ
min_elapsed_seconds = 300

-- That less than five minutes have passed is that now is before the time five minutes on.
unfoldable pub make_score_map_key : FsNode → (now : Time) → Option ScoreMapKey
make_score_map_key n now =
    if not (is_file n.info.type)
    then none
    else if before now
        (record (n.info.m_time) { second = add_seconds n.info.m_time.second min_elapsed_seconds })
    then none
    else some (record {
      path = n.rel_path;
      permissions = n.info.permissions;
      uid = n.info.uid;
      gid = n.info.gid;
      m_time = n.info.m_time;
      inode = n.info.inode;
      size = n.info.size;
    })

-- An open file: the bytes that are left, and the error that reading ends with, if it is not the end
-- of the file.
pub record OpenFile : Type 0 where
  pub rest : Bytes
  pub failure : Option Error

-- The first `n` bytes, and the others.
abbrev pub take : ℕ → Bytes → Bytes
take zero b = []
take (suc n) [] = []
take (suc n) (c ∷ b) = c ∷ take n b

abbrev pub drop : ℕ → Bytes → Bytes
drop zero b = b
drop (suc n) [] = []
drop (suc n) (c ∷ b) = drop n b

-- What `saveFileChunk` returns: a score, io.EOF, or another error.
pub data Chunk : Type 0 where
  saved : Score → Chunk
  eof : Chunk
  failed : Error → Chunk
  panicked : Chunk

-- io.ReadFull into a buffer of the size: the bytes that were read, with no error or
-- io.ErrUnexpectedEOF. The failures are io.EOF and the error of the file.
pub data ReadFull : Type 0 where
  read : Bytes → ReadFull
  at_end : ReadFull
  unread : Error → ReadFull

abbrev pub read_full : (size : ℕ) → OpenFile → ReadFull
read_full size f =
    if not (ltb (length f.rest) size) then read (take size f.rest) else elim f.failure [
      | some e ↦ unread e
      | none ↦ if is_empty f.rest then at_end else read f.rest
    ]

module _ {S : Type 0} (store : Store S) (acquire : OpenFile → S → Result (Unit {0})) where
  abbrev save_blob : Bytes → S → Chunk × S
  save_blob blob s =
      let (r, s') = store.save (record { blob = blob; score = [] }) s in
      elim (within "Store" r) [
        | ok score ↦ (saved score, s')
        | err e ↦ (failed e, s')
        | panic ↦ (panicked, s')
      ]

  abbrev save_read : ReadFull → S → Chunk × S
  save_read at_end s = (eof, s)
  save_read (unread e) s = (failed (Error.wrap "Read" e), s)
  save_read (read buf) s = elim (within "MarshalFile" (marshal_file buf)) [
    | ok chunk ↦ save_blob chunk s
    | err e ↦ (failed e, s)
    | panic ↦ (panicked, s)
  ]

  unfoldable pub save_file_chunk : (chunk_size : ℕ) → OpenFile → S → Chunk × S
  save_file_chunk size f s = elim (within "acquiring semaphore" (acquire f s)) [
    | ok _ ↦ save_read (read_full size f) s
    | err e ↦ (failed e, s)
    | panic ↦ (panicked, s)
  ]

  -- The loop of `saveFile`. `none` is that the fuel ran out.
  unfoldable pub save_chunks :
      (fuel chunk_size : ℕ) → OpenFile → List Score → S → Option (Result (List Score)) × S
  unfolding save_file_chunk
  save_chunks zero size f scores s = (none, s)
  save_chunks (suc k) size f scores s =
      let (c, s') = save_file_chunk size f s in
      elim c [
        | saved score ↦
            save_chunks k size (record f { rest = drop size f.rest }) (scores ++ score ∷ []) s'
        | eof ↦ (some (ok scores), s')
        | failed e ↦ (some (err e), s')
        | panicked ↦ (some panic, s')
      ]

-- The state of the store beside that of the score map.
pub record Saving (S M : Type 0) : Type 0 where
  pub blobs : S
  pub score_map : M

module _ {S M : Type 0} (store : Store S) (acquire : OpenFile → S → Result (Unit {0}))
    (score_map : ScoreMap M) (open_file : Bytes → Result OpenFile) where
  abbrev remember : Option ScoreMapKey → Result (List Score) → M → M
  remember (some key) (ok scores) m = score_map.set key scores m
  remember _ _ m = m

  -- The rest of `saveFile` after a miss. The path is that below the base path.
  abbrev pub save_missed :
      (fuel chunk_size : ℕ)
      → Option ScoreMapKey
      → FsNode
      → Saving S M
      → Option (Result (List Score)) × Saving S M
  save_missed fuel size key n s = elim (within "Open" (open_file n.rel_path)) [
    | err e ↦ (some (err e), s)
    | panic ↦ (some panic, s)
    | ok f ↦
        (let (o, blobs) = save_chunks store acquire fuel size f [] s.blobs in
          elim o [
            | none ↦ (none, record s { blobs = blobs })
            | some r ↦ (some r, record { blobs = blobs; score_map = remember key r s.score_map })
          ])
  ]

  unfoldable pub save_file :
      (fuel chunk_size : ℕ)
      → (now : Time) → FsNode
      → Saving S M
      → Option (Result (List Score)) × Saving S M
  unfolding make_score_map_key save_chunks
  save_file fuel size now n s = elim (make_score_map_key n now) [
    | none ↦ save_missed fuel size none n s
    | some k ↦ elim (score_map.get k s.score_map) [
      | some scores ↦ (some (ok scores), s)
      | none ↦ save_missed fuel size (some k) n s
    ]
  ]
