-- ===== src/Save/Dir.antt =====
-- internal/save/visitor.go: `saveDir`.
-- The outcome of acquiring the semaphore is a parameter; that it is released in the end is left out.
use comeback.Prelude.{List, [], ◌∷◌}
use comeback.Prelude.Go.{Bytes, Result, ok, err, panic, within, ◌>>=◌}
use comeback.Blob.Score.{Score}
use comeback.Blob.Store.{Store}
use comeback.Repr.Info.{FileInfo}
use comeback.Repr.Marshal.{Proto, marshal_dir}
use comeback.Save.File.{FsNode}

-- The loop over the children.
abbrev pub entries_of : List FsNode → List FileInfo
entries_of [] = []
entries_of (child ∷ children) = child.info ∷ entries_of children

module _ {S : Type 0} (store : Store S) (proto : Proto) (acquire : S → Result (Unit {0})) where
  abbrev save_listing : Bytes → S → Result (List Score) × S
  save_listing b s =
      let (r, s') = store.save (record { blob = b; score = [] }) s in
      (within "Store" r >>= λ score. ok (score ∷ []), s')

  unfoldable pub save_dir : List FsNode → S → Result (List Score) × S
  save_dir children s =
      elim (within "acquiring semaphore" (acquire s) >>= λ _.
      within "MarshalDir" (marshal_dir proto (entries_of children))) [
        | ok b ↦ save_listing b s
        | err e ↦ (err e, s)
        | panic ↦ (panic, s)
      ]
