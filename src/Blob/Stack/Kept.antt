-- ===== src/Blob/Stack/Kept.antt =====
-- The stores of internal/blob, one on the other, keep what their clients rely on.
use comeback.Prelude.{◌≡◌, ◌≢◌, ◌⊎◌, sym, ap, ◌∙◌, some, true, false, Bool-cases, inl, inr, arith}
use comeback.Prelude.Go.{Bytes, Result, ok, eq_bytes, eq_of_eq_bytes}
use comeback.Blob.Score.{Score}
use comeback.Blob.Store.{SaveRequest, WithScores}
use comeback.Blob.Keeping.{Keeps}
use comeback.Blob.Stack.{Parts, BucketLaws, IsValid, new_blob_store}
use comeback.Blob.Stack.Saving.{Saved, known, stored, failed, text_of}
use comeback.Blob.Stack.RoundTrip.{
  object, save, Encrypted, encrypted, refused, Encrypted-save, save-IsValid, save_keeps,
  saved_object, load_object,
}
use comeback.Util.StringSet.{contains, contains-add}

module _ {B : Type 0} (p : Parts B) (laws : BucketLaws p.bucket) where
  -- Every object whose score is in the set is of a kind.
  unfoldable pub AllKnown : (Bytes → Type 0) → WithScores B → Type 0
  AllKnown IsKnown w =
      (t c : Bytes) → contains t w.scores ≡ true → object p laws w t ≡ some c → IsKnown c

  Saved-AllKnown :
      (IsKnown : Bytes → Type 0) (c : Bytes) (w w' : WithScores B) (r : Result Score)
      (score : Score)
      → Saved p laws c w w' r
      → r ≡ ok score
      → IsKnown c
      → AllKnown IsKnown w
      → AllKnown IsKnown w'
  unfolding AllKnown
  Saved-AllKnown IsKnown c w w' r score (known m e q) h k all = rw q all
  Saved-AllKnown IsKnown c w w' r score (failed new e kept q) h k all = absurd (e score h)
  Saved-AllKnown IsKnown c w w' r score (stored new e here kept q) h k all =
      λ t d m o. go t d m o (Bool-cases (eq_bytes (text_of p laws c) t))
    where
      go :
          (t d : Bytes)
          → contains t w'.scores ≡ true
          → object p laws w' t ≡ some d
          → (eq_bytes (text_of p laws c) t ≡ true) ⊎ (eq_bytes (text_of p laws c) t ≡ false)
          → IsKnown d
      go t d m o (inl e') =
          let same = eq_of_eq_bytes (text_of p laws c) t e' in
          let d_is : c ≡ d = ground (arith, here, o, same) in rw (← d_is) k
      go t d m o (inr e') =
          let old : contains t w.scores ≡ true =
            ground (arith, q, contains-add (text_of p laws c) t w.scores) in
          let other : t ≢ text_of p laws c =
            λ x. ground (arith, ap (λ (u : Bytes). contains u w.scores) x) in
          all t d old (sym (kept t other) ∙ o)

  -- The composed store keeps blobs, for a class of ciphertexts with different scores.
  module _ (decrypts : (b c : Bytes) → p.crypter.encrypt b ≡ ok c → p.crypter.decrypt c ≡ ok b)
      (IsKnown : Bytes → Type 0)
      (distinct : (c c' : Bytes)
        → IsKnown c
        → IsKnown c'
        → p.hash.sum c' ≡ p.hash.sum c
        → c' ≡ c) where
    unfoldable pub IsGood : WithScores B → Type 0
    IsGood w = IsValid p laws w × AllKnown IsKnown w

    unfoldable pub IsAllowed : Bytes → Type 0
    IsAllowed b = (c : Bytes) → p.crypter.encrypt b ≡ ok c → IsKnown c

    unfoldable pub Holds : WithScores B → Score → Bytes → Type 0
    Holds w score b =
        (c : Bytes) × (score ≡ p.hash.sum c)
        × (p.crypter.decrypt c ≡ ok b)
        × (contains (text_of p laws c) w.scores ≡ true)
        × (object p laws w (text_of p laws c) ≡ some c)

    pub good :
        (req : SaveRequest) (w : WithScores B) (score : Score)
        → IsGood w
        → IsAllowed req.blob
        → (save p laws req w).0 ≡ ok score
        → IsGood (save p laws req w).1
    unfolding IsGood IsAllowed
    good req w score g a h = go (Encrypted-save p laws req w)
      where
        go : Encrypted p laws req w → IsGood (save p laws req w).1
        go (encrypted c e s) =
            (save-IsValid p laws req w g.0, Saved-AllKnown IsKnown c w _ _ score s h (a c e) g.1)
        go (refused r k) = absurd (r score h)

    pub holds :
        (req : SaveRequest) (w : WithScores B) (score : Score)
        → IsGood w
        → IsAllowed req.blob
        → (save p laws req w).0 ≡ ok score
        → Holds (save p laws req w).1 score req.blob
    unfolding IsGood IsAllowed AllKnown Holds
    holds req w score g a h = go (Encrypted-save p laws req w)
      where
        go : Encrypted p laws req w → Holds (save p laws req w).1 score req.blob
        go (encrypted c e s) =
            let (k, m, o) =
              saved_object p laws c w _ _ score g.0 s h
                (λ c' m o. distinct c c' (a c e) (g.1 _ c' m o)) in
            (c, k, decrypts req.blob c e, m, o)
        go (refused r k) = absurd (r score h)

    pub still :
        (req : SaveRequest) (w : WithScores B) (score : Score) (b : Bytes)
        → Holds w score b
        → Holds (save p laws req w).1 score b
    unfolding Holds
    still req w score b (c, k, d, m, o) =
        let (m', o') = save_keeps p laws req w (text_of p laws c) c m o in (c, k, d, m', o')

    pub load :
        (w : WithScores B) (score : Score) (b : Bytes)
        → Holds w score b
        → (new_blob_store p).load score w ≡ ok b
    unfolding Holds
    load w score b (c, k, d, m, o) = rw k (load_object p laws w c b o d)

    abbrev pub stack_keeps : Keeps (new_blob_store p)
    stack_keeps = record {
      IsGood = IsGood;
      IsAllowed = IsAllowed;
      Holds = Holds;
      saved_good = good;
      saved_holds = holds;
      kept = still;
      loaded = load;
    }
