-- ===== src/Gc.antt =====
-- gc.go: the pipeline that moves garbage out of the way. Each worker is in a step of its own
-- between the points where it talks to a channel or to the bucket, and the steps come in any order.
-- The bucket is a parameter.
pub mod Invariant
pub mod Steps
pub mod Safety
mod Tests
use comeback.Prelude.{
  ◌≡◌, ◌≢◌, ◌⊎◌, none, some, Option, List, [], ◌∷◌, ◌++◌, Bool, true, false, if◌then◌else◌,
}
use comeback.Prelude.Go.{Bytes, codes, Result, ok, err, panic}
use comeback.Blob.Score.{Score, IsScore, hex}
use comeback.Verify.Resolver.{has_score}

abbrev pub blob_prefix : Bytes
blob_prefix = codes "blobs/"

abbrev pub garbage_prefix : Bytes
garbage_prefix = codes "garbage/"

-- The names of the object that is copied, and of its copy.
abbrev pub src_name : Score → Bytes
src_name s = blob_prefix ++ hex s

abbrev pub dst_name : Score → Bytes
dst_name s = garbage_prefix ++ hex s

-- `CopyObject` and `DeleteObject` of the bucket.
pub record GcBucket (B : Type 0) : Type 0 where
  pub copy_object : (src dst : Bytes) → B → Result (Unit {0}) × B
  pub delete_object : Bytes → B → Result (Unit {0}) × B

-- What is documented of them: they change no other object, a copy that succeeds has the contents of
-- its source, and a call that fails has done its work or has not.
pub record GcLaws {B : Type 0} (bucket : GcBucket B) : Type 0 where
  pub object_at : B → Bytes → Option Bytes
  pub copied :
      (src dst : Bytes) (b : B)
      → (bucket.copy_object src dst b).0 ≡ ok tt
      → (c : Bytes) × (object_at b src ≡ some c)
        × (object_at (bucket.copy_object src dst b).1 dst ≡ some c)
  pub target :
      (src dst : Bytes) (b : B)
      → (object_at (bucket.copy_object src dst b).1 dst ≡ object_at b dst)
        ⊎ ((c : Bytes) × (object_at b src ≡ some c)
            × (object_at (bucket.copy_object src dst b).1 dst ≡ some c))
  pub copy_others :
      (src dst name : Bytes) (b : B)
      → name ≢ dst
      → object_at (bucket.copy_object src dst b).1 name ≡ object_at b name
  pub deleted :
      (name : Bytes) (b : B)
      → (object_at (bucket.delete_object name b).1 name ≡ object_at b name)
        ⊎ (object_at (bucket.delete_object name b).1 name ≡ none)
  pub delete_others :
      (name other : Bytes) (b : B)
      → other ≢ name
      → object_at (bucket.delete_object name b).1 other ≡ object_at b other

-- What is in the channels, and in the hands of the workers that have copied an object.
pub record GcState (B : Type 0) : Type 0 where
  pub all_scores : List Score
  pub garbage_scores : List Score
  pub cloned : List Score
  pub garbage_objects : List Bytes
  pub bucket : B

abbrev pub start_gc : {B : Type 0} → B → GcState B
start_gc b = record {
  all_scores = [];
  garbage_scores = [];
  cloned = [];
  garbage_objects = [];
  bucket = b;
}

module _ {B : Type 0} where
  -- The body of the loop of `filterToGarbage`.
  unfoldable pub filter_score : (accessible : List Score) → Score → GcState B → GcState B
  filter_score accessible s st =
      if has_score s accessible
      then st
      else record st { garbage_scores = st.garbage_scores ++ s ∷ [] }

  -- A copy that fails ends the worker.
  abbrev pub copied_score : Score → Result (Unit {0}) → B → GcState B → GcState B
  copied_score s (ok _) b st = record st { bucket = b; cloned = s ∷ st.cloned }
  copied_score s (err e) b st = record st { bucket = b }
  copied_score s panic b st = record st { bucket = b }

  -- The loop of `cloneGarbage` up to the copy, and the rest of it.
  unfoldable pub clone_score : GcBucket B → Score → GcState B → GcState B
  clone_score bucket s st =
      let (r, b) = bucket.copy_object (src_name s) (dst_name s) st.bucket in copied_score s r b st

  unfoldable pub send_name : Score → GcState B → GcState B
  send_name s st = record st { garbage_objects = st.garbage_objects ++ src_name s ∷ [] }

  -- The body of the loop of `deleteObjects`.
  unfoldable pub delete_name : GcBucket B → Bytes → GcState B → GcState B
  delete_name bucket name st = record st { bucket = (bucket.delete_object name st.bucket).1 }

module _ {B : Type 0} (bucket : GcBucket B) (accessible : List Score) where
  -- A step of one of the goroutines of `runGC`. The listing may find any score at any time. A worker
  -- for which the context is done, where it would send, drops what it has.
  pub data GcStep (st : GcState B) : GcState B → Type 0 where
    lists : (s : Score) → IsScore s → GcStep st (record st { all_scores = st.all_scores ++ s ∷ [] })
    filters :
        (s : Score) (ss : List Score)
        → st.all_scores ≡ s ∷ ss
        → GcStep st (filter_score accessible s (record st { all_scores = ss }))
    filter_stops :
        (s : Score) (ss : List Score)
        → st.all_scores ≡ s ∷ ss
        → GcStep st (record st { all_scores = ss })
    clones :
        (s : Score) (before after : List Score)
        → st.garbage_scores ≡ before ++ s ∷ after
        → GcStep st (clone_score bucket s (record st { garbage_scores = before ++ after }))
    sends :
        (s : Score) (before after : List Score)
        → st.cloned ≡ before ++ s ∷ after
        → GcStep st (send_name s (record st { cloned = before ++ after }))
    send_stops :
        (s : Score) (before after : List Score)
        → st.cloned ≡ before ++ s ∷ after
        → GcStep st (record st { cloned = before ++ after })
    deletes :
        (name : Bytes) (before after : List Bytes)
        → st.garbage_objects ≡ before ++ name ∷ after
        → GcStep st (delete_name bucket name (record st { garbage_objects = before ++ after }))

  pub data GcReach (first : B) : GcState B → Type 0 where
    starts : GcReach first (start_gc first)
    continues : {st st' : GcState B} → GcReach first st → GcStep st st' → GcReach first st'
