-- ===== src/Comebackfs/Handle.antt =====
-- internal/comebackfs/file_handle.go. The anonymous file is its contents; whether it can be made and
-- written is a parameter, and reading it at an offset does not fail.
use comeback.Prelude.{ℕ, suc, zero, none, some, List, [], ◌∷◌, ◌++◌}
use comeback.Prelude.Go.{Bytes, Result, ok, err, panic, within, ◌>>=◌}
use comeback.Blob.Score.{Score}
use comeback.Repr.Marshal.{unmarshal_file}
use comeback.Comebackfs.{FileHandle}
use comeback.Comebackfs.Dir.{drop}

-- fsutil.AnonymousFile, and `Write` of a chunk to the file.
pub record TempFiles : Type 0 where
  pub anonymous_file : Result (Unit {0})
  pub write : Bytes → Result (Unit {0})

abbrev pub take : {A : Type 0} → ℕ → List A → List A
take zero xs = []
take (suc n) [] = []
take (suc n) (x ∷ xs) = x ∷ take n xs

module _ (load : Score → Result Bytes) (temp : TempFiles) where
  -- The loop over the scores: what is written.
  unfoldable pub copy_chunks : List Score → Result Bytes
  copy_chunks [] = ok []
  copy_chunks (s ∷ ss) = do
    blob ← within "Load" (load s)
    p ← within "UnmarshalFile" (unmarshal_file blob)
    _ ← within "Write" (temp.write p)
    rest ← copy_chunks ss
    ok (p ++ rest)

  -- The handle after it.
  unfoldable pub ensure_file : FileHandle → Result FileHandle
  ensure_file fh = elim fh.file [
    | some contents ↦ ok fh
    | none ↦ do
      _ ← within "AnonymousFile" temp.anonymous_file
      contents ← copy_chunks fh.scores
      ok (record fh { file = some contents })
  ]

  -- `ReadAt` for `n` bytes: what is read, less if the file ends, for which `ReadFile` returns no error.
  abbrev read_bytes : (offset n : ℕ) → FileHandle → Bytes
  read_bytes offset n fh = elim fh.file [
    | some contents ↦ take n (drop offset contents)
    | none ↦ []
  ]

  unfoldable pub read_at : (offset n : ℕ) → FileHandle → Result Bytes × FileHandle
  read_at offset n fh = elim (within "ensureFile" (ensure_file fh)) [
    | err e ↦ (err e, fh)
    | panic ↦ (panic, fh)
    | ok fh' ↦ (ok (read_bytes offset n fh'), fh')
  ]
