-- ===== src/Blob/Stack/RoundTrip.antt =====
-- What is saved through the stores of internal/blob can be loaded, and stays so.
use comeback.Prelude.{
  ◌≡◌, ◌≢◌, ◌⊎◌, refl, ap, ◌∙◌, Option, some, true, false, Bool-cases, inl, inr, ◌++◌, arith, List,
  [], ◌∷◌,
}
use comeback.Prelude.Go.{Bytes, Result, ok, err, panic, eq_bytes, eq_bytes_self, eq_of_eq_bytes}
use comeback.Blob.Score.{Score, hex}
use comeback.Blob.Store.{SaveRequest, WithScores, encrypting_save, encrypting_load, checking_load}
use comeback.Blob.Gcs.{gcs_load, make_name}
use comeback.Blob.Stack.{Parts, BucketLaws, IsValid, new_blob_store, scored_store}
use comeback.Blob.Stack.Saving.{
  Saved, known, stored, failed, Saved-scored_save, text_of, hex_injective, compute_score_lem,
}
use comeback.Util.StringSet.{StringSet, contains, contains-add, contains-add_self}

module _ {B : Type 0} (p : Parts B) (laws : BucketLaws p.bucket) where
  abbrev pub object : WithScores B → Bytes → Option Bytes
  object w t = laws.object_at w.inner (p.prefix ++ t)

  absent_ne : (t u : Bytes) (s : StringSet) → contains t s ≡ true → contains u s ≡ false → t ≢ u
  absent_ne t u s h k e = ground (arith, ap (λ (x : Bytes). contains x s) e)

  -- What the set vouches for: contents of the right score.
  abbrev Vouched : WithScores B → Bytes → Type 0
  Vouched w t = (c : Bytes) × (object w t ≡ some c) × (hex (p.hash.sum c) ≡ t)

  -- A save keeps what the set vouched for, and only `c` comes to it.
  Saved-object :
      (c : Bytes) (w w' : WithScores B) (r : Result Score) (t : Bytes)
      → Saved p laws c w w' r
      → contains t w.scores ≡ true
      → (contains t w'.scores ≡ true) × (object w' t ≡ object w t)
  Saved-object c w w' r t (known h e q) m = ground (arith, m, q)
  Saved-object c w w' r t (stored new e here kept q) m = (
    ground (arith, q, m, contains-add (text_of p laws c) t w.scores),
    kept t (absent_ne t _ w.scores m new),
  )
  Saved-object c w w' r t (failed new e kept q) m =
      (ground (arith, q, m), kept t (absent_ne t _ w.scores m new))

  Saved-IsValid :
      (c : Bytes) (w w' : WithScores B) (r : Result Score)
      → Saved p laws c w w' r
      → IsValid p laws w
      → IsValid p laws w'
  Saved-IsValid c w w' r (known h e q) v = rw q v
  Saved-IsValid c w w' r (stored new e here kept q) v = record {
    stored = λ t m. go t m (Bool-cases (eq_bytes (text_of p laws c) t));
  }
    where
      go :
          (t : Bytes)
          → contains t w'.scores ≡ true
          → (eq_bytes (text_of p laws c) t ≡ true) ⊎ (eq_bytes (text_of p laws c) t ≡ false)
          → Vouched w' t
      go t m (inl h) = let k = eq_of_eq_bytes (text_of p laws c) t h in (c, rw (← k) here, k)
      go t m (inr h) =
          let old : contains t w.scores ≡ true =
            ground (arith, q, contains-add (text_of p laws c) t w.scores) in
          let (c', o, s) = v.stored t old in (c', kept t (absent_ne t _ w.scores old new) ∙ o, s)
  Saved-IsValid c w w' r (failed new e kept q) v = record {
    stored = λ t m.
        let old : contains t w.scores ≡ true = ground (arith, m, q) in
        let (c', o, s) = v.stored t old in (c', kept t (absent_ne t _ w.scores old new) ∙ o, s);
  }

  -- `Load` of what the bucket has under its score.
  pub load_object :
      (w : WithScores B) (c pt : Bytes)
      → object w (text_of p laws c) ≡ some c
      → p.crypter.decrypt c ≡ ok pt
      → (new_blob_store p).load (p.hash.sum c) w ≡ ok pt
  unfolding encrypting_load checking_load gcs_load make_name
  load_object w c pt o d = ground (
    arith,
    laws.readable w.inner (p.prefix ++ text_of p laws c) c o,
    compute_score_lem p.hash c,
    eq_bytes_self (p.hash.sum c),
  )

  abbrev pub save : SaveRequest → WithScores B → Result Score × WithScores B
  save = (new_blob_store p).save

  -- A save is that of the ciphertext, or it changes nothing.
  pub data Encrypted (req : SaveRequest) (w : WithScores B) : Type 0 where
    encrypted :
        (c : Bytes)
        → p.crypter.encrypt req.blob ≡ ok c
        → Saved p laws c w (save req w).1 (save req w).0
        → Encrypted req w
    refused : ((s : Score) → (save req w).0 ≢ ok s) → (save req w).1 ≡ w → Encrypted req w

  pub Encrypted-save : (req : SaveRequest) (w : WithScores B) → Encrypted req w
  Encrypted-save req w = go (p.crypter.encrypt req.blob) refl
    where
      go : (r : Result Bytes) → p.crypter.encrypt req.blob ≡ r → Encrypted req w
      go (ok c) h =
          let one : save req w ≡ (scored_store p).save (record req { blob = c }) w =
            unfold encrypting_save in ground arith in
          encrypted c h (rw one (Saved-scored_save p laws (record req { blob = c }) w))
      go (err e) h =
          refused (λ s. unfold encrypting_save in ground arith)
            (unfold encrypting_save in ground arith)
      go panic h =
          refused (λ s. unfold encrypting_save in ground arith)
            (unfold encrypting_save in ground arith)

  -- Whatever comes of a save, every score in the set afterwards belongs to an object in the bucket
  -- with contents of that score, if that was so before.
  pub save-IsValid :
      (req : SaveRequest) (w : WithScores B)
      → IsValid p laws w
      → IsValid p laws ((new_blob_store p).save req w).1
  save-IsValid req w v = go (Encrypted-save req w)
    where
      go : Encrypted req w → IsValid p laws (save req w).1
      go (encrypted c h s) = Saved-IsValid c w _ _ s v
      go (refused h k) = rw k v

  -- A later save does not change what is loaded for a score in the set.
  pub save_keeps :
      (req : SaveRequest) (w : WithScores B) (t c : Bytes)
      → contains t w.scores ≡ true
      → object w t ≡ some c
      → (contains t (save req w).1.scores ≡ true) × (object (save req w).1 t ≡ some c)
  save_keeps req w t c m o = go (Encrypted-save req w)
    where
      go :
          Encrypted req w
          → (contains t (save req w).1.scores ≡ true) × (object (save req w).1 t ≡ some c)
      go (encrypted c' h s) = let (k, e) = Saved-object c' w _ _ t s m in (k, e ∙ o)
      go (refused h k) = rw k (m, o)

  -- The state after some saves, whatever they return.
  pub save_all : List SaveRequest → WithScores B → WithScores B
  save_all [] w = w
  save_all (req ∷ reqs) w = save_all reqs (save req w).1

  save_all_keeps :
      (reqs : List SaveRequest) (w : WithScores B) (t c : Bytes)
      → contains t w.scores ≡ true
      → object w t ≡ some c
      → object (save_all reqs w) t ≡ some c
  unfolding save_all
  save_all_keeps [] w t c m o = o
  save_all_keeps (req ∷ reqs) w t c m o =
      let (m', o') = save_keeps req w t c m o in save_all_keeps reqs (save req w).1 t c m' o'

  -- A successful save of `c` leaves it under its score.
  pub saved_object :
      (c : Bytes) (w w' : WithScores B) (r : Result Score) (score : Score)
      → IsValid p laws w
      → Saved p laws c w w' r
      → r ≡ ok score
      → ((c' : Bytes)
          → contains (text_of p laws c) w.scores ≡ true
          → object w (text_of p laws c) ≡ some c'
          → p.hash.sum c' ≡ p.hash.sum c
          → c' ≡ c)
      → (score ≡ p.hash.sum c)
        × (contains (text_of p laws c) w'.scores ≡ true)
        × (object w' (text_of p laws c) ≡ some c)
  saved_object c w w' r score v (known m e q) h unique =
      let (c', o, s) = v.stored (text_of p laws c) m in
      let k = hex_injective _ _ (p.hash.sum_IsScore c') (p.hash.sum_IsScore c) s in
      let same = unique c' m o k in (ground arith, ground (arith, m, q), ground (arith, o, same, q))
  saved_object c w w' r score v (stored new e here kept q) h unique =
      (ground arith, ground (arith, q, contains-add_self (text_of p laws c) w.scores), here)
  saved_object c w w' r score v (failed new e kept q) h unique = absurd (e score h)

  -- A successful save returns a score under which the blob is loaded, after any further saves,
  -- whatever they return. The set of scores is valid before, the crypter decrypts what it has
  -- encrypted, and the bucket holds no other contents with the score of the ciphertext.
  pub load-save :
      (req : SaveRequest) (w : WithScores B) (score : Score) (later : List SaveRequest)
      → IsValid p laws w
      → ((b c : Bytes) → p.crypter.encrypt b ≡ ok c → p.crypter.decrypt c ≡ ok b)
      → ((c c' : Bytes)
          → p.crypter.encrypt req.blob ≡ ok c
          → laws.object_at w.inner (p.prefix ++ hex (p.hash.sum c)) ≡ some c'
          → p.hash.sum c' ≡ p.hash.sum c
          → c' ≡ c)
      → ((new_blob_store p).save req w).0 ≡ ok score
      → (new_blob_store p).load score (save_all later ((new_blob_store p).save req w).1)
        ≡ ok req.blob
  load-save req w score later v decrypts unique h = go (Encrypted-save req w)
    where
      go :
          Encrypted req w
          → (new_blob_store p).load score (save_all later (save req w).1) ≡ ok req.blob
      go (encrypted c e s) =
          let (k, m, o) = saved_object c w _ _ score v s h (λ c' _. unique c c' e) in
          rw k (
            load_object _ c req.blob (save_all_keeps later (save req w).1 (text_of p laws c) c m o)
              (decrypts req.blob c e))
      go (refused r k) = absurd (r score h)
