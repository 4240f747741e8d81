-- ===== src/Blob/Keeping.antt =====
-- What the clients of a `Store` of internal/blob/store.go rely on: a blob that was saved is loaded under
-- its score, also after further saves.
use comeback.Prelude.{◌≡◌}
use comeback.Prelude.Go.{Bytes, ok}
use comeback.Blob.Score.{Score}
use comeback.Blob.Store.{SaveRequest, Store}

-- `IsGood` holds of the states that successful saves lead to, and `IsAllowed` of the blobs that can be saved.
pub record Keeps {S : Type 0} (store : Store S) : Type 1 where
  pub IsGood : S → Type 0
  pub IsAllowed : Bytes → Type 0
  pub Holds : S → Score → Bytes → Type 0
  pub saved_good :
      (req : SaveRequest) (s : S) (score : Score)
      → IsGood s
      → IsAllowed req.blob
      → (store.save req s).0 ≡ ok score
      → IsGood (store.save req s).1
  pub saved_holds :
      (req : SaveRequest) (s : S) (score : Score)
      → IsGood s
      → IsAllowed req.blob
      → (store.save req s).0 ≡ ok score
      → Holds (store.save req s).1 score req.blob
  pub kept :
      (req : SaveRequest) (s : S) (score : Score) (b : Bytes)
      → Holds s score b
      → Holds (store.save req s).1 score b
  pub loaded : (s : S) (score : Score) (b : Bytes) → Holds s score b → store.load score s ≡ ok b
