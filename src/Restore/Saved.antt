-- ===== src/Restore/Saved.antt =====
-- internal/restore/visitor.go restores what internal/save/visitor.go has saved.
use comeback.Prelude.{ℕ, ◌≡◌, none, some, List}
use comeback.Prelude.Go.{Bytes, Result, ok}
use comeback.Blob.Score.{Score}
use comeback.Blob.Store.{SaveRequest, Store}
use comeback.Blob.Keeping.{Keeps}
use comeback.Repr.Info.{Time}
use comeback.Save.File.{
  OpenFile, FsNode, ScoreMapKey, ScoreMap, Saving, make_score_map_key, save_file,
}
use comeback.Save.Loads.{AreAllowed, after_saves, Loads-after_saves}
use comeback.Save.Caching.{save_file-Loads}
use comeback.Restore.File.{Disk, DiskLaws, write_file_contents, write_file_contents_lem}

module _ {S M F : Type 0} (store : Store S) (keeps : Keeps store)
    (acquire : OpenFile → S → Result (Unit {0})) (score_map : ScoreMap M)
    (open_file : Bytes → Result OpenFile) (disk : Disk F) (laws : DiskLaws disk) where
  -- When a file has been saved, other blobs have been saved after it, and a file has been restored from
  -- its scores, the two files have the same contents. The store keeps blobs, among them the chunks of
  -- the file, and the score map did not have the file.
  pub restored_contents :
      (fuel size : ℕ) (now : Time) (n : FsNode) (s : Saving S M) (f : OpenFile)
      (scores : List Score) (later : List SaveRequest) (path : Bytes) (d : F)
      → keeps.IsGood s.blobs
      → open_file n.rel_path ≡ ok f
      → AreAllowed store keeps f.rest
      → ((k : ScoreMapKey) → make_score_map_key n now ≡ some k → score_map.get k s.score_map ≡ none)
      → (save_file store acquire score_map open_file fuel size now n s).0 ≡ some (ok scores)
      → (write_file_contents store disk path scores
          (after_saves store later
            (save_file store acquire score_map open_file fuel size now n s).1.blobs)
          d).0
        ≡ ok tt
      → laws.contents
          (write_file_contents store disk path scores
            (after_saves store later
              (save_file store acquire score_map open_file fuel size now n s).1.blobs)
            d).1
          path
        ≡ some f.rest
  restored_contents fuel size now n s f scores later path d good e allowed miss saved restored =
      write_file_contents_lem store keeps disk laws path scores _ d f.rest
        (Loads-after_saves store keeps later _ scores f.rest (
          save_file-Loads store acquire score_map open_file keeps fuel size now n s f scores good e
            allowed miss saved))
        restored
