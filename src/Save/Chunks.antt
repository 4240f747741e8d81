-- ===== src/Save/Chunks.antt =====
-- The loop of `saveFile` in internal/save/visitor.go ends, and the chunks that it saves make up the file.
use comeback.Prelude.{
  ℕ, zero, suc, ◌<◌, ◌≤◌, ◌≡◌, refl, sym, ◌∙◌, true, Option, some, List, [], ◌∷◌, ◌++◌, arith,
  length, is_some, ◌≢◌,
}
use mathlib.Core.List.{append_assoc, append-nil}
use comeback.Prelude.Go.{Bytes, Result, ok, err, panic}
use comeback.Blob.Score.{Score}
use comeback.Blob.Store.{Store}
use comeback.Blob.Keeping.{Keeps}
use comeback.Repr.Marshal.{marshal_file}
use comeback.Save.Loads.{Loads, AreAllowed, Loads-save, Loads-snoc}
use comeback.Save.File.{
  OpenFile, Chunk, saved, eof, failed, panicked, ReadFull, read, at_end, unread, read_full, take,
  drop, save_file_chunk, save_chunks,
}

length-drop-le : (n : ℕ) (b : Bytes) → length (drop n b) ≤ length b
length-drop-le zero b = omega arith
length-drop-le (suc n) [] = omega arith
length-drop-le (suc n) (c ∷ b) = omega (arith, length-drop-le n b)

length-drop : (n : ℕ) (b : Bytes) → 0 < n → 0 < length b → length (drop n b) < length b
length-drop zero b h k = absurd (omega arith)
length-drop (suc n) [] h k = absurd (omega arith)
length-drop (suc n) (c ∷ b) h k = omega (arith, length-drop-le n b)

take-drop : (n : ℕ) (b : Bytes) → take n b ++ drop n b ≡ b
take-drop zero b = refl
take-drop (suc n) [] = refl
take-drop (suc n) (c ∷ b) = ground (arith, take-drop n b)

take-all : (n : ℕ) (b : Bytes) → length b ≤ n → (take n b ≡ b) × (drop n b ≡ [])
take-all zero [] h = (refl, refl)
take-all zero (c ∷ b) h = absurd (omega arith)
take-all (suc n) [] h = (refl, refl)
take-all (suc n) (c ∷ b) h = ground (arith, take-all n b)

module _ {S : Type 0} (store : Store S) (acquire : OpenFile → S → Result (Unit {0})) where
  -- What a successful chunk has read and saved.
  data Read (size : ℕ) (f : OpenFile) (s : S) (c : Chunk) (s' : S) : Type 0 where
    chunk :
        (score : Score) (buf : Bytes)
        → buf ≡ take size f.rest
        → c ≡ saved score
        → (store.save (record { blob = buf ++ b'f' ∷ []; score = [] }) s).0 ≡ ok score
        → s' ≡ (store.save (record { blob = buf ++ b'f' ∷ []; score = [] }) s).1
        → (0 < size → 0 < length f.rest)
        → Read size f s c s'
    ended : c ≡ eof → s' ≡ s → f.rest ≡ [] → Read size f s c s'
    other : ((score : Score) → c ≢ saved score) → c ≢ eof → Read size f s c s'

  abbrev Outcome : ℕ → OpenFile → S → Type 0
  Outcome size f s =
      Read size f s (save_file_chunk store acquire size f s).0
        (save_file_chunk store acquire size f s).1

  Read-save_file_chunk : (size : ℕ) (f : OpenFile) (s : S) → Outcome size f s
  unfolding save_file_chunk marshal_file
  Read-save_file_chunk size f s = go (acquire f s) refl (read_full size f) refl
    where
      bought :
          (buf : Bytes) (u : Unit {0})
          → acquire f s ≡ ok u
          → read_full size f ≡ read buf
          → (r : Result Score)
          → (store.save (record { blob = buf ++ b'f' ∷ []; score = [] }) s).0 ≡ r
          → Outcome size f s
      bought buf u e e' (ok score) k =
          chunk score buf (ground (arith, take-all size f.rest)) (ground arith) k (ground arith)
            (λ pos. ground arith)
      bought buf u e e' (err x) k = other (λ score. ground arith) (ground arith)
      bought buf u e e' panic k = other (λ score. ground arith) (ground arith)

      go :
          (r : Result (Unit {0}))
          → acquire f s ≡ r
          → (o : ReadFull) → read_full size f ≡ o
          → Outcome size f s
      go (ok u) e (read buf) e' = bought buf u e e' _ refl
      go (ok u) e at_end e' = ended (ground arith) (ground arith) (ground arith)
      go (ok u) e (unread x) e' = other (λ score. ground arith) (ground arith)
      go (err x) e o e' = other (λ score. ground arith) (ground arith)
      go panic e o e' = other (λ score. ground arith) (ground arith)

  module _ (k size : ℕ) (f : OpenFile) (scores : List Score) (s : S) where
    abbrev round : Chunk × S
    round = save_file_chunk store acquire size f s

    abbrev loop : Option (Result (List Score)) × S
    loop = save_chunks store acquire (suc k) size f scores s

    loop-saved :
        (score : Score) (s' : S)
        → round.0 ≡ saved score
        → round.1 ≡ s'
        → loop
          ≡ save_chunks store acquire k size
              (record f { rest = drop size f.rest })
              (scores ++ score ∷ [])
              s'
    unfolding save_chunks
    loop-saved score s' e e' = rw (save_chunks, e, e') refl

    loop-eof : (s' : S) → round.0 ≡ eof → round.1 ≡ s' → loop ≡ (some (ok scores), s')
    unfolding save_chunks
    loop-eof s' e e' = rw (save_chunks, e, e') refl

    loop-other :
        ((score : Score) → round.0 ≢ saved score)
        → round.0 ≢ eof
        → (is_some loop.0 ≡ true) × ((ts : List Score) → loop.0 ≢ some (ok ts))
    unfolding save_chunks
    loop-other a b = go round.0 refl
      where
        go :
            (c : Chunk)
            → round.0 ≡ c
            → (is_some loop.0 ≡ true) × ((ts : List Score) → loop.0 ≢ some (ok ts))
        go (saved score) e = absurd (a score e)
        go eof e = absurd (b e)
        go (failed x) e = (ground arith, λ ts. ground arith)
        go panicked e = (ground arith, λ ts. ground arith)

  -- With a chunk size that is not zero, the loop ends if the fuel is more than the bytes that are left.
  pub save_chunks_ends :
      (fuel size : ℕ) (f : OpenFile) (scores : List Score) (s : S)
      → 0 < size
      → length f.rest < fuel
      → is_some (save_chunks store acquire fuel size f scores s).0 ≡ true
  unfolding save_chunks
  save_chunks_ends zero size f scores s pos more = absurd (omega arith)
  save_chunks_ends (suc k) size f scores s pos more =
      go (Read-save_file_chunk size f s) (λ scores' s'.
        save_chunks_ends k size (record f { rest = drop size f.rest }) scores' s' pos)
    where
      go :
          Outcome size f s
          → ((scores' : List Score) (s' : S)
              → length (drop size f.rest) < k
              → is_some
                  (save_chunks store acquire k size
                    (record f { rest = drop size f.rest })
                    scores'
                    s').0
                ≡ true)
          → is_some (save_chunks store acquire (suc k) size f scores s).0 ≡ true
      go (chunk score buf a b c d e) ih =
          rw (loop-saved k size f scores s score _ b refl)
            (ih _ _ (omega (arith, length-drop size f.rest pos (e pos))))
      go (ended a b c) ih = rw (loop-eof k size f scores s _ a refl) refl
      go (other a b) ih = (loop-other k size f scores s a b).0

  module _ (keeps : Keeps store) where
    -- The loop appends to scores of some contents those of the rest of the file.
    pub save_chunks-Loads :
        (fuel size : ℕ) (f : OpenFile) (scores scores' : List Score) (s : S) (contents : Bytes)
        → keeps.IsGood s
        → AreAllowed store keeps f.rest
        → Loads store keeps s scores contents
        → (save_chunks store acquire fuel size f scores s).0 ≡ some (ok scores')
        → Loads store keeps
            (save_chunks store acquire fuel size f scores s).1
            scores'
            (contents ++ f.rest)
    unfolding save_chunks
    save_chunks-Loads zero size f scores scores' s contents good allowed l h = cc
    save_chunks-Loads (suc k) size f scores scores' s contents good allowed l h =
        go (Read-save_file_chunk size f s) (λ ts s' c.
          save_chunks-Loads k size (record f { rest = drop size f.rest }) ts scores' s' c)
      where
        part : (buf : Bytes) → buf ≡ take size f.rest → keeps.IsAllowed (buf ++ b'f' ∷ [])
        part buf a = allowed [] buf (drop size f.rest) (rw a (sym (take-drop size f.rest)))

        rest_allowed : AreAllowed store keeps (drop size f.rest)
        rest_allowed before b after e = allowed (take size f.rest ++ before) b after (
            sym (take-drop size f.rest)
            ∙ cc (
              e,
              append_assoc (take size f.rest) before b,
              append_assoc (take size f.rest) (before ++ b) after,
            ))

        go :
            Outcome size f s
            → ((ts : List Score) (s' : S) (c : Bytes)
                → keeps.IsGood s'
                → AreAllowed store keeps (drop size f.rest)
                → Loads store keeps s' ts c
                → (save_chunks store acquire k size (record f { rest = drop size f.rest }) ts s').0
                  ≡ some (ok scores')
                → Loads store keeps
                    (save_chunks store acquire k size
                      (record f { rest = drop size f.rest })
                      ts
                      s').1
                    scores'
                    (c ++ drop size f.rest))
            → Loads store keeps
                (save_chunks store acquire (suc k) size f scores s).1
                scores'
                (contents ++ f.rest)
        go (chunk score buf a b c d e) ih =
            let same = loop-saved k size f scores s score _ b d in
            let held =
              keeps.saved_holds (record { blob = buf ++ b'f' ∷ []; score = [] }) s score good
                (part buf a) c in
            let good' =
              keeps.saved_good (record { blob = buf ++ b'f' ∷ []; score = [] }) s score good
                (part buf a) c in
            let before =
              Loads-save store keeps (record { blob = buf ++ b'f' ∷ []; score = [] }) s scores
                contents l in
            let whole : contents ++ f.rest ≡ (contents ++ buf) ++ drop size f.rest =
              cc (a, take-drop size f.rest, append_assoc contents buf (drop size f.rest)) in
            rw (same, whole)
              (ih _ _ (contents ++ buf) good' (rest_allowed)
                (Loads-snoc store keeps _ scores score contents buf before held) (rw (← same) h))
        go (ended a b c) ih =
            let same : loop k size f scores s ≡ (some (ok scores), s) =
              loop-eof k size f scores s s a b in
            let ts : scores ≡ scores' = ground (arith, same, h) in
            rw (same, c, append-nil contents, ← ts) l
        go (other a b) ih = absurd ((loop-other k size f scores s a b).1 scores' h)
