-- ===== src/Blob/Stack/Integrity.antt =====
-- What is loaded through the stores of internal/blob has the score that was asked for, whatever the
-- bucket does; and what the answers of the bucket to a save lead to.
use comeback.Prelude.{
  ◌≡◌, ◌≢◌, ◌⊎◌, refl, inl, inr, Option, some, none, true, false, Bool-cases, arith, ◌==◌,
}
use comeback.Prelude.Go.{
  Bytes, ok, panic, eq_bytes, eq_bytes_self, eq_of_eq_bytes, >>=-passes, within-eq-ok,
}
use comeback.Blob.Score.{Score}
use comeback.Blob.Store.{SaveRequest, WithScores, encrypting_load, checking_load}
use comeback.Blob.Gcs.{Bucket, Checksums, Object, create_request, check_object, gcs_save}
use comeback.Blob.Stack.{Parts, new_blob_store, scored_store}
use comeback.Blob.Stack.Saving.{compute_score_lem}

-- A blob that is loaded is the decryption of a text with the score that was asked for. Nothing is
-- asked of the bucket.
pub load-score :
    {B : Type 0} (p : Parts B) (w : WithScores B) (score : Score) (b : Bytes)
    → (new_blob_store p).load score w ≡ ok b
    → (c : Bytes) × (p.crypter.decrypt c ≡ ok b) × (p.hash.sum c ≡ score)
unfolding encrypting_load checking_load
load-score p w score b h =
    let (c, k, h') = >>=-passes (checking_load p.hash (scored_store p) score w) _ h in
    let (blob, l, h'') = >>=-passes ((scored_store p).load score w) _ k in
    let same = compute_score_lem p.hash blob in
    let (e, q) : (eq_bytes (p.hash.sum blob) score ≡ true) × (blob ≡ c) = ground (arith, same) in
    (c, within-eq-ok _ _ h', rw (← q) (eq_of_eq_bytes (p.hash.sum blob) score e))

-- The two outcomes of a save for which the bucket returns an object.
abbrev pub Answer : {B : Type 0} → Bucket B → Bytes → Checksums → SaveRequest → B → Object → Type 0
Answer bucket prefix sums req b o =
    (((gcs_save bucket prefix sums req b).0 ≡ ok req.score)
      × (o.crc32c ≡ sums.crc32c req.blob)
      × (o.md5 ≡ some (sums.md5 req.blob)))
    ⊎ (((gcs_save bucket prefix sums req b).0 ≡ panic)
        × ((o.crc32c ≢ sums.crc32c req.blob) ⊎ (o.md5 ≢ some (sums.md5 req.blob))))

-- When the bucket returns an object for a save, the save succeeds with the score of the request if the
-- checksums of the object are those of the blob, and panics if one is not or if there is no MD5 sum.
pub gcs_save_lem :
    {B : Type 0} (bucket : Bucket B) (prefix : Bytes) (sums : Checksums) (req : SaveRequest) (b : B)
    (o : Object)
    → (bucket.create_object (create_request bucket prefix sums req) b).0 ≡ ok o
    → Answer bucket prefix sums req b o
unfolding gcs_save check_object
gcs_save_lem bucket prefix sums req b o h =
    go (Bool-cases (o.crc32c == sums.crc32c req.blob)) o.md5 refl
  where
    sums_match :
        (m : Bytes)
        → (o.crc32c == sums.crc32c req.blob ≡ true)
        → o.md5 ≡ some m
        → (eq_bytes m (sums.md5 req.blob) ≡ true) ⊎ (eq_bytes m (sums.md5 req.blob) ≡ false)
        → Answer bucket prefix sums req b o
    sums_match m k e (inl q) =
        inl (ground (arith, h), ground arith, ground (arith, eq_of_eq_bytes m (sums.md5 req.blob)))
    sums_match m k e (inr q) = inr (ground (arith, h), inr (λ x. ground (arith, eq_bytes_self m)))

    go :
        (o.crc32c == sums.crc32c req.blob ≡ true) ⊎ (o.crc32c == sums.crc32c req.blob ≡ false)
        → (m : Option Bytes) → o.md5 ≡ m
        → Answer bucket prefix sums req b o
    go (inr k) m e = inr (ground (arith, h), inl (ground arith))
    go (inl k) none e = inr (ground (arith, h), inr (cc e))
    go (inl k) (some m) e = sums_match m k e (Bool-cases (eq_bytes m (sums.md5 req.blob)))
