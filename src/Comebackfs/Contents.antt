-- ===== src/Comebackfs/Contents.antt =====
-- internal/comebackfs reads what internal/save/visitor.go has saved.
use comeback.Prelude.{ℕ, ◌+◌, ◌≡◌, refl, ap, ◌∙◌, Option, none, some, List, [], ◌∷◌, ◌++◌, arith}
use comeback.Prelude.Go.{Bytes, Result, ok}
use comeback.Blob.Score.{Score}
use comeback.Blob.Store.{SaveRequest, Store}
use comeback.Blob.Keeping.{Keeps}
use comeback.Repr.Info.{Time}
use comeback.Repr.Marshal.{Proto, unmarshal_file-append}
use comeback.Save.File.{
  OpenFile, FsNode, ScoreMapKey, ScoreMap, Saving, make_score_map_key, save_file,
}
use comeback.Save.Loads.{Loads, AreAllowed, after_saves, Loads-after_saves}
use comeback.Save.Caching.{save_file-Loads}
use comeback.Comebackfs.{FileInode, Inode, file_inode, InodeRecord, FileHandle, FileSystem, put}
use comeback.Comebackfs.Dir.{WriteDirent, drop}
use comeback.Comebackfs.Handle.{TempFiles, take, copy_chunks, ensure_file, read_at}
use comeback.Comebackfs.Server.{
  open_file, read_file, opened, bytes_read, on_open, open_in, answer_with, serve,
}

-- Files can be made and written.
pub record TempWorks (temp : TempFiles) : Type 0 where
  pub anonymous_file : temp.anonymous_file ≡ ok tt
  pub write : (b : Bytes) → temp.write b ≡ ok tt

module _ {S : Type 0} (store : Store S) (keeps : Keeps store) (temp : TempFiles)
    (works : TempWorks temp) where
  copy_chunks-Loads :
      (s : S) (ts : List Score) (contents : Bytes)
      → Loads store keeps s ts contents
      → copy_chunks (λ t. store.load t s) temp ts ≡ ok contents
  unfolding copy_chunks
  copy_chunks-Loads s [] contents h = ground (arith, h)
  copy_chunks-Loads s (t ∷ ts) contents (b, rest, e, held, more) = ground (
    arith,
    e,
    keeps.loaded s t (b ++ b'f' ∷ []) held,
    unmarshal_file-append b,
    works.write b,
    copy_chunks-Loads s ts rest more,
  )

  read_at-Loads :
      (s : S) (contents : Bytes) (offset n : ℕ) (fh : FileHandle)
      → Loads store keeps s fh.scores contents
      → fh.file ≡ none
      → (read_at (λ t. store.load t s) temp offset n fh).0 ≡ ok (take n (drop offset contents))
  unfolding read_at ensure_file
  read_at-Loads s contents offset n fh h empty =
      ground (arith, works.anonymous_file, copy_chunks-Loads s fh.scores contents h)

module _ (proto : Proto) (load : Score → Result Bytes) (write : WriteDirent)
    (temp : TempFiles) where
  -- The file system after a file has been opened.
  abbrev opening : FileInode → FileSystem → FileSystem
  opening inode fs = record fs {
    next_handle_id = fs.next_handle_id + 1;
    file_handles =
        put fs.next_handle_id (record { scores = inode.scores; file = none }) fs.file_handles;
  }

  serve-open_file :
      (id : ℕ) (fs : FileSystem) (rec : InodeRecord) (inode : FileInode)
      → fs.inodes id ≡ some rec
      → rec.in_ ≡ file_inode inode
      → serve proto load write temp (open_file id) fs
        ≡ (ok (opened fs.next_handle_id), opening inode fs)
  unfolding serve
  serve-open_file id fs rec inode h k =
      ap (λ (o : Option InodeRecord). on_open o fs) h ∙ ap (λ (i : Inode). open_in i fs) k

  serve-read_file :
      (inode : FileInode) (offset n : ℕ) (fs : FileSystem)
      → (serve proto load write temp (read_file fs.next_handle_id offset n) (opening inode fs)).0
        ≡ answer_with bytes_read
            (read_at load temp offset n (record { scores = inode.scores; file = none })).0
  unfolding serve
  serve-read_file inode offset n fs = ground arith

module _ {S M : Type 0} (store : Store S) (keeps : Keeps store)
    (acquire : OpenFile → S → Result (Unit {0})) (score_map : ScoreMap M)
    (open_path : Bytes → Result OpenFile) (proto : Proto) (write : WriteDirent) (temp : TempFiles)
    (works : TempWorks temp) where
  -- When a file has been saved, and other blobs after it, the file is opened in a file system that has
  -- an inode with its scores, and a read of `n` bytes at an offset gives the bytes that the file has
  -- there, fewer where it ends. The store keeps blobs, among them the chunks of the file, the score map
  -- did not have the file, and temporary files can be made and written.
  pub mounted_contents :
      (fuel size : ℕ) (now : Time) (n : FsNode) (s : Saving S M) (f : OpenFile)
      (scores : List Score) (later : List SaveRequest) (id offset len : ℕ) (fs : FileSystem)
      (rec : InodeRecord) (inode : FileInode)
      → keeps.IsGood s.blobs
      → open_path n.rel_path ≡ ok f
      → AreAllowed store keeps f.rest
      → ((k : ScoreMapKey) → make_score_map_key n now ≡ some k → score_map.get k s.score_map ≡ none)
      → (save_file store acquire score_map open_path fuel size now n s).0 ≡ some (ok scores)
      → fs.inodes id ≡ some rec
      → rec.in_ ≡ file_inode inode
      → inode.scores ≡ scores
      → let load = λ (t : Score). store.load t (
          after_saves store later
            (save_file store acquire score_map open_path fuel size now n s).1.blobs) in
        let (answer, fs') = serve proto load write temp (open_file id) fs in
        (answer ≡ ok (opened fs.next_handle_id))
        × ((serve proto load write temp (read_file fs.next_handle_id offset len) fs').0
            ≡ ok (bytes_read (take len (drop offset f.rest))))
  mounted_contents fuel size now n s f scores later id offset len fs rec inode good e allowed miss
        saved has is_file same =
      let s' =
        after_saves store later
          (save_file store acquire score_map open_path fuel size now n s).1.blobs in
      let loads : Loads store keeps s' inode.scores f.rest = rw same (
        Loads-after_saves store keeps later _ scores f.rest (
          save_file-Loads store acquire score_map open_path keeps fuel size now n s f scores good e
            allowed miss saved)) in
      let load = λ (t : Score). store.load t s' in
      let o = serve-open_file proto load write temp id fs rec inode has is_file in
      (
        ap (λ p. p.0) o,
        ap (λ p. (serve proto load write temp (read_file fs.next_handle_id offset len) p.1).0) o
            ∙ serve-read_file proto load write temp inode offset len fs
            ∙ ap (answer_with bytes_read) (
                read_at-Loads store keeps temp works s' f.rest offset len
                  (record { scores = inode.scores; file = none }) loads refl),
      )
