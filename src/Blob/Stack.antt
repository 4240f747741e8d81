-- ===== src/Blob/Stack.antt =====
-- internal/restore/restore.go: `newBlobStore` composes the stores of internal/blob. That of
-- internal/save/save.go has the same stores and semaphores between them.
pub mod Saving
pub mod RoundTrip
pub mod Kept
pub mod Integrity
use comeback.Prelude.{◌≡◌, ◌≢◌, Option, some, ◌++◌, true}
use comeback.Prelude.Go.{Bytes, Result, ok}
use comeback.Blob.Score.{Score, Hash, hex}
use comeback.Blob.Store.{
  SaveRequest, Store, Crypter, WithScores, checking_store, encrypting_store, existing_scores_store,
}
use comeback.Blob.Gcs.{Bucket, Checksums, CreateRequest, Object, gcs_store}
use comeback.Util.StringSet.{contains}

-- What the stores are made from.
pub record Parts (B : Type 0) : Type 0 where
  pub bucket : Bucket B
  pub prefix : Bytes
  pub hash : Hash
  pub sums : Checksums
  pub crypter : Crypter

module _ {B : Type 0} where
  abbrev pub scored_store : Parts B → Store (WithScores B)
  scored_store p = existing_scores_store p.hash (gcs_store p.bucket p.prefix p.sums)

  abbrev pub new_blob_store : Parts B → Store (WithScores B)
  new_blob_store p = encrypting_store p.crypter (checking_store p.hash (scored_store p))

  -- What the program relies on of the bucket: an object that was created can be read, with its
  -- contents, and creating one leaves those of other names alone.
  pub record BucketLaws (bucket : Bucket B) : Type 0 where
    pub object_at : B → Bytes → Option Bytes
    pub created :
        (req : CreateRequest) (b : B) (o : Object)
        → (bucket.create_object req b).0 ≡ ok o
        → object_at (bucket.create_object req b).1 req.name ≡ some req.contents
    pub others :
        (req : CreateRequest) (b : B) (name : Bytes)
        → name ≢ req.name
        → object_at (bucket.create_object req b).1 name ≡ object_at b name
    pub readable :
        (b : B) (name contents : Bytes)
        → object_at b name ≡ some contents
        → bucket.new_reader name b ≡ ok (record { read_all = ok contents; close = ok tt })

  -- Every score in the set belongs to an object with contents of that score.
  pub record IsValid (p : Parts B) (laws : BucketLaws p.bucket) (w : WithScores B) : Type 0 where
    pub stored :
        (t : Bytes)
        → contains t w.scores ≡ true
        → (c : Bytes) × (laws.object_at w.inner (p.prefix ++ t) ≡ some c) × (hex (p.hash.sum c) ≡ t)
