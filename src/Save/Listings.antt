-- ===== src/Save/Listings.antt =====
-- `saveDir` of internal/save/visitor.go: the store holds the listing that it has saved.
use comeback.Prelude.{◌≡◌, refl, List, [], ◌∷◌, arith}
use comeback.Prelude.Go.{Bytes, Result, ok, err, panic}
use comeback.Blob.Score.{Score}
use comeback.Blob.Store.{SaveRequest, Store}
use comeback.Blob.Keeping.{Keeps}
use comeback.Repr.Marshal.{Proto, marshal_dir}
use comeback.Save.File.{FsNode}
use comeback.Save.Dir.{entries_of, save_dir}
use comeback.Save.Loads.{after_saves}

module _ {S : Type 0} (store : Store S) (keeps : Keeps store) (proto : Proto)
    (acquire : S → Result (Unit {0})) where
  pub after_saves-Holds :
      (reqs : List SaveRequest) (s : S) (score : Score) (b : Bytes)
      → keeps.Holds s score b
      → keeps.Holds (after_saves store reqs s) score b
  unfolding after_saves
  after_saves-Holds [] s score b h = h
  after_saves-Holds (req ∷ reqs) s score b h =
      after_saves-Holds reqs (store.save req s).1 score b (keeps.kept req s score b h)

  -- The score of the listing of the children, which the store holds.
  abbrev pub HoldsListing : List FsNode → List Score → S → Type 0
  HoldsListing children scores s =
      (score : Score) × (d : Bytes) × (scores ≡ score ∷ [])
      × (marshal_dir proto (entries_of children) ≡ ok d)
      × keeps.Holds s score d

  pub save_dir-HoldsListing :
      (children : List FsNode) (s : S) (scores : List Score)
      → keeps.IsGood s
      → ((d : Bytes) → marshal_dir proto (entries_of children) ≡ ok d → keeps.IsAllowed d)
      → (save_dir store proto acquire children s).0 ≡ ok scores
      → HoldsListing children scores (save_dir store proto acquire children s).1
  unfolding save_dir
  save_dir-HoldsListing children s scores good allowed h =
      go (acquire s) refl (marshal_dir proto (entries_of children)) refl
    where
      stored :
          (u : Unit {0})
          → acquire s ≡ ok u
          → (d : Bytes) → marshal_dir proto (entries_of children) ≡ ok d
          → (r : Result Score) → (store.save (record { blob = d; score = [] }) s).0 ≡ r
          → HoldsListing children scores (save_dir store proto acquire children s).1
      stored u e d k (ok score) q =
          let held =
            keeps.saved_holds (record { blob = d; score = [] }) s score good (allowed d k) q in
          let same : (save_dir store proto acquire children s).1
              ≡ (store.save (record { blob = d; score = [] }) s).1 =
            ground (arith, e, k) in
          (score, d, ground (arith, e, k, q), k, rw same held)
      stored u e d k (err x) q = absurd (ground (arith, e, k, q))
      stored u e d k panic q = absurd (ground (arith, e, k, q))

      go :
          (a : Result (Unit {0}))
          → acquire s ≡ a
          → (m : Result Bytes) → marshal_dir proto (entries_of children) ≡ m
          → HoldsListing children scores (save_dir store proto acquire children s).1
      go (ok u) e (ok d) k = stored u e d k _ refl
      go (ok u) e (err x) k = absurd (ground (arith, e, k))
      go (ok u) e panic k = absurd (ground (arith, e, k))
      go (err x) e m k = absurd (ground (arith, e))
      go panic e m k = absurd (ground (arith, e))
