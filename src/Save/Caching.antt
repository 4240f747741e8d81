-- ===== src/Save/Caching.antt =====
-- `saveFile` of internal/save/visitor.go: what it returns, with and without the score map.
use comeback.Prelude.{ℕ, ◌<◌, ◌≡◌, refl, true, Option, none, some, List, [], arith, length, is_some}
use comeback.Prelude.Go.{Bytes, Result, ok, err, panic}
use comeback.Blob.Score.{Score}
use comeback.Blob.Store.{Store}
use comeback.Blob.Keeping.{Keeps}
use comeback.Repr.Info.{Time}
use comeback.Save.File.{
  OpenFile, FsNode, ScoreMapKey, ScoreMap, Saving, make_score_map_key, save_chunks, save_missed,
  save_file,
}
use comeback.Save.Loads.{Loads, AreAllowed}
use comeback.Save.Chunks.{save_chunks-Loads, save_chunks_ends}

module _ {S M : Type 0} (store : Store S) (acquire : OpenFile → S → Result (Unit {0}))
    (score_map : ScoreMap M) (open_file : Bytes → Result OpenFile) where
  abbrev missed :
      (fuel size : ℕ)
      → Option ScoreMapKey
      → FsNode
      → Saving S M
      → Option (Result (List Score)) × Saving S M
  missed = save_missed store acquire score_map open_file

  save_missed_ends :
      (fuel size : ℕ) (key : Option ScoreMapKey) (n : FsNode) (s : Saving S M)
      → 0 < size
      → ((f : OpenFile) → open_file n.rel_path ≡ ok f → length f.rest < fuel)
      → is_some (missed fuel size key n s).0 ≡ true
  save_missed_ends fuel size key n s pos more = go (open_file n.rel_path) refl
    where
      go :
          (r : Result OpenFile)
          → open_file n.rel_path ≡ r
          → is_some (missed fuel size key n s).0 ≡ true
      go (ok f) e =
          let l = save_chunks_ends store acquire fuel size f [] s.blobs pos (more f e) in
          ground (arith, e, l)
      go (err x) e = ground (arith, e)
      go panic e = ground (arith, e)

  -- `saveFile` returns, if the chunk size is not zero: fuel that is more than the length of the file is
  -- enough.
  pub save_file_ends :
      (fuel size : ℕ) (now : Time) (n : FsNode) (s : Saving S M)
      → 0 < size
      → ((f : OpenFile) → open_file n.rel_path ≡ ok f → length f.rest < fuel)
      → is_some (save_file store acquire score_map open_file fuel size now n s).0 ≡ true
  unfolding save_file
  save_file_ends fuel size now n s pos more = ground (
    arith,
    save_missed_ends fuel size none n s pos more,
    λ (k : ScoreMapKey). save_missed_ends fuel size (some k) n s pos more,
  )

  save_missed_sets :
      (fuel size : ℕ) (key : ScoreMapKey) (n : FsNode) (s : Saving S M) (scores : List Score)
      → ((k : ScoreMapKey) (v : List Score) (m : M)
          → score_map.get k (score_map.set k v m) ≡ some v)
      → (missed fuel size (some key) n s).0 ≡ some (ok scores)
      → score_map.get key (missed fuel size (some key) n s).1.score_map ≡ some scores
  save_missed_sets fuel size key n s scores law h = go (open_file n.rel_path) refl
    where
      opened :
          (f : OpenFile)
          → open_file n.rel_path ≡ ok f
          → (o : Option (Result (List Score)))
          → (save_chunks store acquire fuel size f [] s.blobs).0 ≡ o
          → score_map.get key (missed fuel size (some key) n s).1.score_map ≡ some scores
      opened f e none e' = absurd (ground (arith, e, e'))
      opened f e (some (ok ts)) e' = ground (arith, e, e', law key ts s.score_map)
      opened f e (some (err x)) e' = absurd (ground (arith, e, e'))
      opened f e (some panic) e' = absurd (ground (arith, e, e'))

      go :
          (r : Result OpenFile)
          → open_file n.rel_path ≡ r
          → score_map.get key (missed fuel size (some key) n s).1.score_map ≡ some scores
      go (ok f) e = opened f e _ refl
      go (err x) e = absurd (ground (arith, e))
      go panic e = absurd (ground (arith, e))

  -- A file that was saved successfully, and is eligible for the score map then and later, is not read
  -- again: while its node and the map do not change, `saveFile` returns the same scores, and changes
  -- nothing, if the map returns what was set last.
  pub save_file_again :
      (fuel fuel' size size' : ℕ) (now now' : Time) (n : FsNode) (s : Saving S M)
      (scores : List Score) (key : ScoreMapKey)
      → ((k : ScoreMapKey) (v : List Score) (m : M)
          → score_map.get k (score_map.set k v m) ≡ some v)
      → make_score_map_key n now ≡ some key
      → make_score_map_key n now' ≡ some key
      → (save_file store acquire score_map open_file fuel size now n s).0 ≡ some (ok scores)
      → save_file store acquire score_map open_file fuel' size' now' n
          (save_file store acquire score_map open_file fuel size now n s).1
        ≡ (some (ok scores), (save_file store acquire score_map open_file fuel size now n s).1)
  unfolding save_file
  save_file_again fuel fuel' size size' now now' n s scores key law k k' h =
      go (score_map.get key s.score_map) refl
    where
      go :
          (o : Option (List Score))
          → score_map.get key s.score_map ≡ o
          → save_file store acquire score_map open_file fuel' size' now' n
              (save_file store acquire score_map open_file fuel size now n s).1
            ≡ (some (ok scores), (save_file store acquire score_map open_file fuel size now n s).1)
      go (some ts) e = ground (arith, e, k, k')
      go none e =
          let same : save_file store acquire score_map open_file fuel size now n s
              ≡ missed fuel size (some key) n s =
            ground (arith, e, k) in
          let set = save_missed_sets fuel size key n s scores law (rw (← same) h) in
          rw same (ground (arith, k', set))

  save_missed-Loads :
      (keeps : Keeps store) (fuel size : ℕ) (key : Option ScoreMapKey) (n : FsNode) (s : Saving S M)
      (f : OpenFile) (scores : List Score)
      → keeps.IsGood s.blobs
      → open_file n.rel_path ≡ ok f
      → AreAllowed store keeps f.rest
      → (missed fuel size key n s).0 ≡ some (ok scores)
      → Loads store keeps (missed fuel size key n s).1.blobs scores f.rest
  save_missed-Loads keeps fuel size key n s f scores good e allowed h =
      go (save_chunks store acquire fuel size f [] s.blobs).0 refl
    where
      go :
          (o : Option (Result (List Score)))
          → (save_chunks store acquire fuel size f [] s.blobs).0 ≡ o
          → Loads store keeps (missed fuel size key n s).1.blobs scores f.rest
      go none k = absurd (ground (arith, e, k))
      go (some r) k =
          let blobs : (missed fuel size key n s).1.blobs
              ≡ (save_chunks store acquire fuel size f [] s.blobs).1 =
            ground (arith, e, k) in
          let found : (save_chunks store acquire fuel size f [] s.blobs).0 ≡ some (ok scores) =
            ground (arith, e, k) in
          rw blobs (
            save_chunks-Loads store acquire keeps fuel size f [] scores s.blobs [] good allowed refl
              found)

  -- A file that is not found in the score map is saved as scores under which its chunks are loaded,
  -- if its chunks are allowed.
  pub save_file-Loads :
      (keeps : Keeps store) (fuel size : ℕ) (now : Time) (n : FsNode) (s : Saving S M)
      (f : OpenFile) (scores : List Score)
      → keeps.IsGood s.blobs
      → open_file n.rel_path ≡ ok f
      → AreAllowed store keeps f.rest
      → ((k : ScoreMapKey) → make_score_map_key n now ≡ some k → score_map.get k s.score_map ≡ none)
      → (save_file store acquire score_map open_file fuel size now n s).0 ≡ some (ok scores)
      → Loads store keeps
          (save_file store acquire score_map open_file fuel size now n s).1.blobs
          scores
          f.rest
  unfolding save_file
  save_file-Loads keeps fuel size now n s f scores good e allowed miss h =
      go (make_score_map_key n now) refl
    where
      go :
          (key : Option ScoreMapKey)
          → make_score_map_key n now ≡ key
          → Loads store keeps
              (save_file store acquire score_map open_file fuel size now n s).1.blobs
              scores
              f.rest
      go none k =
          let same : save_file store acquire score_map open_file fuel size now n s
              ≡ missed fuel size none n s =
            ground (arith, k) in
          rw same
            (save_missed-Loads keeps fuel size none n s f scores good e allowed (rw (← same) h))
      go (some key) k =
          let same : save_file store acquire score_map open_file fuel size now n s
              ≡ missed fuel size (some key) n s =
            ground (arith, k, miss key k) in
          rw same (
            save_missed-Loads keeps fuel size (some key) n s f scores good e allowed
              (rw (← same) h))
