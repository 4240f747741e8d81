-- ===== src/Restore/File.antt =====
-- internal/restore/visitor.go: `writeFileContents`.
-- The file system is a parameter. The second close, of a file that is closed, does nothing.
use comeback.Prelude.{◌≡◌, refl, Option, some, List, [], ◌∷◌, ◌++◌, arith}
use mathlib.Core.List.{append_assoc, append-nil}
use comeback.Prelude.Go.{Bytes, Result, ok, err, panic, within, ◌>>=◌}
use comeback.Blob.Score.{Score}
use comeback.Blob.Store.{Store}
use comeback.Blob.Keeping.{Keeps}
use comeback.Repr.Marshal.{unmarshal_file, unmarshal_file-append}
use comeback.Save.Loads.{Loads}

-- os.OpenFile with O_WRONLY, O_CREATE and O_EXCL, and `Write` and `Close` of the file, which is named by
-- its path.
pub record Disk (F : Type 0) : Type 0 where
  pub open_file : Bytes → F → Result (Unit {0}) × F
  pub write : (path chunk : Bytes) → F → Result (Unit {0}) × F
  pub close : Bytes → F → Result (Unit {0}) × F

module _ {S F : Type 0} (store : Store S) (disk : Disk F) (path : Bytes) where
  -- One round of the loop over the scores: load, unmarshal and write.
  unfoldable pub write_chunk : Score → S → F → Result (Unit {0}) × F
  write_chunk t s f =
      elim (within "Load" (store.load t s) >>= λ blob.
      within "UnmarshalFile" (unmarshal_file blob)) [
        | err e ↦ (err e, f)
        | panic ↦ (panic, f)
        | ok chunk ↦ (let (r, f') = disk.write path chunk f in (within "Write" r, f'))
      ]

  unfoldable pub write_chunks : List Score → S → F → Result (Unit {0}) × F
  write_chunks [] s f = (ok tt, f)
  write_chunks (t ∷ ts) s f =
      let (r, f') = write_chunk t s f in
      let rest = write_chunks ts s f' in
      elim r [ ok _ ↦ rest | err e ↦ (err e, f') | panic ↦ (panic, f') ]

  unfoldable pub write_file_contents : List Score → S → F → Result (Unit {0}) × F
  unfolding write_chunks
  write_file_contents scores s f =
      let (opened, f1) = disk.open_file path f in
      elim (within "OpenFile" opened) [
        | err e ↦ (err e, f1)
        | panic ↦ (panic, f1)
        | ok _ ↦
            (let (r, f2) = write_chunks scores s f1 in
              let (closed, f3) = disk.close path f2 in
              elim r [
                | ok _ ↦ (within "Close" closed, f3)
                | err e ↦ (err e, f3)
                | panic ↦ (panic, f3)
              ])
      ]

-- What is relied on of the file system, for the contents of files: a file that has been created is
-- empty, a write appends, and closing changes nothing.
pub record DiskLaws {F : Type 0} (disk : Disk F) : Type 0 where
  pub contents : F → Bytes → Option Bytes
  pub opened :
      (path : Bytes) (f : F)
      → (disk.open_file path f).0 ≡ ok tt
      → contents (disk.open_file path f).1 path ≡ some []
  pub written :
      (path chunk before : Bytes) (f : F)
      → contents f path ≡ some before
      → (disk.write path chunk f).0 ≡ ok tt
      → contents (disk.write path chunk f).1 path ≡ some (before ++ chunk)
  pub closed : (path : Bytes) (f : F) → contents (disk.close path f).1 path ≡ contents f path

module _ {S F : Type 0} (store : Store S) (keeps : Keeps store) (disk : Disk F)
    (laws : DiskLaws disk) (path : Bytes) where
  -- A chunk that is held is written.
  write_chunk_loaded :
      (t : Score) (s : S) (f : F) (b : Bytes)
      → keeps.Holds s t (b ++ b'f' ∷ [])
      → write_chunk store disk path t s f
        ≡ (within "Write" (disk.write path b f).0, (disk.write path b f).1)
  unfolding write_chunk
  write_chunk_loaded t s f b held =
      ground (arith, keeps.loaded s t (b ++ b'f' ∷ []) held, unmarshal_file-append b)

  write_chunks-appends :
      (ts : List Score) (s : S) (f : F) (before contents : Bytes)
      → Loads store keeps s ts contents
      → laws.contents f path ≡ some before
      → (write_chunks store disk path ts s f).0 ≡ ok tt
      → laws.contents (write_chunks store disk path ts s f).1 path ≡ some (before ++ contents)
  unfolding write_chunks
  write_chunks-appends [] s f before contents l h e = rw (l, append-nil before) h
  write_chunks-appends (t ∷ ts) s f before contents (b, rest, whole, held, more) h e =
      go (disk.write path b f).0 refl (λ f'. write_chunks-appends ts s f' (before ++ b) rest more)
    where
      go :
          (r : Result (Unit {0}))
          → (disk.write path b f).0 ≡ r
          → ((f' : F)
              → laws.contents f' path ≡ some (before ++ b)
              → (write_chunks store disk path ts s f').0 ≡ ok tt
              → laws.contents (write_chunks store disk path ts s f').1 path
                ≡ some ((before ++ b) ++ rest))
          → laws.contents (write_chunks store disk path (t ∷ ts) s f).1 path
            ≡ some (before ++ contents)
      go (ok u) k ih =
          let one = write_chunk_loaded t s f b held in
          let same : write_chunks store disk path (t ∷ ts) s f
              ≡ write_chunks store disk path ts s (disk.write path b f).1 =
            ground (arith, one, k) in
          rw (same, whole, ← append_assoc before b rest)
            (ih _ (laws.written path b before f h k) (rw (← same) e))
      go (err x) k ih = absurd (ground (arith, write_chunk_loaded t s f b held))
      go panic k ih = absurd (ground (arith, write_chunk_loaded t s f b held))

  -- A restored file has the contents that its scores stand for.
  pub write_file_contents_lem :
      (ts : List Score) (s : S) (f : F) (contents : Bytes)
      → Loads store keeps s ts contents
      → (write_file_contents store disk path ts s f).0 ≡ ok tt
      → laws.contents (write_file_contents store disk path ts s f).1 path ≡ some contents
  unfolding write_file_contents
  write_file_contents_lem ts s f contents l h = go (disk.open_file path f).0 refl _ refl
    where
      go :
          (r : Result (Unit {0}))
          → (disk.open_file path f).0 ≡ r
          → (r' : Result (Unit {0}))
          → (write_chunks store disk path ts s (disk.open_file path f).1).0 ≡ r'
          → laws.contents (write_file_contents store disk path ts s f).1 path ≡ some contents
      go (ok u) e (ok v) e' =
          let done =
            write_chunks-appends ts s (disk.open_file path f).1 [] contents l (laws.opened path f e)
              e' in
          ground (
            arith,
            e,
            e',
            done,
            laws.closed path (write_chunks store disk path ts s (disk.open_file path f).1).1,
          )
      go (ok u) e (err x) e' = absurd (ground (arith, e, e'))
      go (ok u) e panic e' = absurd (ground (arith, e, e'))
      go (err x) e r' e' = absurd (ground (arith, e))
      go panic e r' e' = absurd (ground (arith, e))

  write_chunks_succeeds :
      (ts : List Score) (s : S) (f : F) (contents : Bytes)
      → ((chunk : Bytes) (f : F) → (disk.write path chunk f).0 ≡ ok tt)
      → Loads store keeps s ts contents
      → (write_chunks store disk path ts s f).0 ≡ ok tt
  unfolding write_chunks
  write_chunks_succeeds [] s f contents w l = refl
  write_chunks_succeeds (t ∷ ts) s f contents w (b, rest, whole, held, more) = ground (
    arith,
    write_chunk_loaded t s f b held,
    w b f,
    write_chunks_succeeds ts s (disk.write path b f).1 rest w more,
  )

  -- A file whose chunks are held by the store is restored without an error, if the file can be created
  -- and no write or close of it fails.
  pub write_file_contents_succeeds :
      (ts : List Score) (s : S) (f : F) (contents : Bytes)
      → (disk.open_file path f).0 ≡ ok tt
      → ((chunk : Bytes) (f : F) → (disk.write path chunk f).0 ≡ ok tt)
      → ((f : F) → (disk.close path f).0 ≡ ok tt)
      → Loads store keeps s ts contents
      → (write_file_contents store disk path ts s f).0 ≡ ok tt
  unfolding write_file_contents
  write_file_contents_succeeds ts s f contents o w c l = ground (
    arith,
    o,
    write_chunks_succeeds ts s (disk.open_file path f).1 contents w l,
    c (write_chunks store disk path ts s (disk.open_file path f).1).1,
  )
