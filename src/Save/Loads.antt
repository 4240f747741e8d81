-- ===== src/Save/Loads.antt =====
-- Scores under which the chunks of a file can be loaded.
use comeback.Prelude.{◌≡◌, refl, sym, List, [], ◌∷◌, ◌++◌}
use mathlib.Core.List.{append_assoc, append-nil}
use comeback.Prelude.Go.{Bytes}
use comeback.Blob.Score.{Score}
use comeback.Blob.Store.{SaveRequest, Store}
use comeback.Blob.Keeping.{Keeps}

-- The state after some saves, whatever they return.
unfoldable pub after_saves : {S : Type 0} → Store S → List SaveRequest → S → S
after_saves store [] s = s
after_saves store (req ∷ reqs) s = after_saves store reqs (store.save req s).1

module _ {S : Type 0} (store : Store S) (keeps : Keeps store) where
  -- The scores are those of chunks that make up the contents.
  abbrev pub Loads : S → List Score → Bytes → Type 0
  Loads s [] contents = contents ≡ []
  Loads s (t ∷ ts) contents =
      (b : Bytes) × (rest : Bytes) × (contents ≡ b ++ rest)
      × keeps.Holds s t (b ++ b'f' ∷ [])
      × Loads s ts rest

  -- Every part of the contents can be saved as a chunk.
  abbrev pub AreAllowed : Bytes → Type 0
  AreAllowed contents =
      (before b after : Bytes) → contents ≡ before ++ b ++ after → keeps.IsAllowed (b ++ b'f' ∷ [])

  pub Loads-save :
      (req : SaveRequest) (s : S) (ts : List Score) (contents : Bytes)
      → Loads s ts contents
      → Loads (store.save req s).1 ts contents
  Loads-save req s [] contents h = h
  Loads-save req s (t ∷ ts) contents (b, rest, e, held, more) =
      (b, rest, e, keeps.kept req s t (b ++ b'f' ∷ []) held, Loads-save req s ts rest more)

  pub Loads-snoc :
      (s : S) (ts : List Score) (t : Score) (contents b : Bytes)
      → Loads s ts contents
      → keeps.Holds s t (b ++ b'f' ∷ [])
      → Loads s (ts ++ t ∷ []) (contents ++ b)
  Loads-snoc s [] t contents b h k = (b, [], rw h (sym (append-nil b)), k, refl)
  Loads-snoc s (u ∷ ts) t contents b (c, rest, e, held, more) k =
      (c, rest ++ b, rw e (append_assoc c rest b), held, Loads-snoc s ts t rest b more k)

  pub Loads-after_saves :
      (reqs : List SaveRequest) (s : S) (ts : List Score) (contents : Bytes)
      → Loads s ts contents
      → Loads (after_saves store reqs s) ts contents
  unfolding after_saves
  Loads-after_saves [] s ts contents h = h
  Loads-after_saves (req ∷ reqs) s ts contents h =
      Loads-after_saves reqs (store.save req s).1 ts contents (Loads-save req s ts contents h)
