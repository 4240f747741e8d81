-- ===== src/Gc/Tests.antt =====
-- gc.go on a bucket with two blobs, one of which is garbage.
use comeback.Prelude.{
  ◌≡◌, ◌≢◌, ◌⊎◌, inl, inr, refl, none, some, Option, [], ◌∷◌, if◌then◌else◌, arith, false,
}
use comeback.Prelude.Go.{
  Bytes, Error, codes, Result, ok, err, eq_bytes, eq_bytes_self, eq_of_eq_bytes, has_prefix-append,
}
use comeback.Blob.Score.{Score, IsScore, hex}
use comeback.Blob.Hex.{encode}
use comeback.Blob.Sample.{Objects, find, pad, length-pad, pad-bytes}
use comeback.Verify.Resolver.{has_score}
use comeback.Gc.{
  blob_prefix, src_name, dst_name, GcBucket, GcLaws, GcState, filter_score, clone_score, send_name,
  delete_name, lists, filters, clones, sends, deletes, GcReach, starts, continues,
}
use comeback.Gc.Safety.{Reach-keeps}

abbrev copy_found : Option Bytes → Bytes → Objects → Result (Unit {0}) × Objects
copy_found none dst os = (err (Error.outside 404), os)
copy_found (some c) dst os = (ok tt, (dst, c) ∷ os)

abbrev without : Bytes → Objects → Objects
without name [] = []
without name ((k, c) ∷ os) = if eq_bytes k name then without name os else (k, c) ∷ without name os

abbrev gc_bucket : GcBucket Objects
gc_bucket = record {
  copy_object = λ src dst os. copy_found (find os src) dst os;
  delete_object = λ name os. (ok tt, without name os);
}

find-copy_found :
    (o : Option Bytes) (dst : Bytes) (os : Objects)
    → (copy_found o dst os).0 ≡ ok tt
    → (c : Bytes) × (o ≡ some c) × (find (copy_found o dst os).1 dst ≡ some c)
find-copy_found none dst os h = absurd (ground arith)
find-copy_found (some c) dst os h = (c, refl, ground (arith, eq_bytes_self dst))

find_target :
    (o : Option Bytes) (dst : Bytes) (os : Objects)
    → (find (copy_found o dst os).1 dst ≡ find os dst)
      ⊎ ((c : Bytes) × (o ≡ some c) × (find (copy_found o dst os).1 dst ≡ some c))
find_target none dst os = inl refl
find_target (some c) dst os = inr (c, refl, ground (arith, eq_bytes_self dst))

find_elsewhere :
    (o : Option Bytes) (dst name : Bytes) (os : Objects)
    → name ≢ dst
    → find (copy_found o dst os).1 name ≡ find os name
find_elsewhere none dst name os h = refl
find_elsewhere (some c) dst name os h = ground (arith, eq_of_eq_bytes dst name)

find-without : (name : Bytes) (os : Objects) → find (without name os) name ≡ none
find-without name [] = refl
find-without name ((k, c) ∷ os) = ground (arith, find-without name os)

find-without_other :
    (name other : Bytes) (os : Objects)
    → other ≢ name
    → find (without name os) other ≡ find os other
find-without_other name other [] h = refl
find-without_other name other ((k, c) ∷ os) h =
    ground
      (arith, find-without_other name other os h, eq_of_eq_bytes k name, eq_of_eq_bytes k other)

abbrev gc_laws : GcLaws gc_bucket
gc_laws = record {
  object_at = find;
  copied = λ src dst os h. find-copy_found (find os src) dst os h;
  target = λ src dst os. find_target (find os src) dst os;
  copy_others = λ src dst name os h. find_elsewhere (find os src) dst name os h;
  deleted = λ name os. inr (find-without name os);
  delete_others = λ name other os h. find-without_other name other os h;
}

abbrev garbage : Score
garbage = pad 20 (codes "garbage")

garbage-IsScore : IsScore garbage
garbage-IsScore = (length-pad 20 (codes "garbage"), pad-bytes 20 (codes "garbage"))

abbrev needed : Score
needed = pad 20 (codes "needed")

needed-IsScore : IsScore needed
needed-IsScore = (length-pad 20 (codes "needed"), pad-bytes 20 (codes "needed"))

abbrev objects : Objects
objects = (src_name garbage, codes "old") ∷ (src_name needed, codes "new") ∷ []

abbrev moved : GcState Objects
moved = record {
  all_scores = [];
  garbage_scores = [];
  cloned = [];
  garbage_objects = [];
  bucket = (dst_name garbage, codes "old") ∷ (src_name needed, codes "new") ∷ [];
}

-- Both scores are listed, and the first is collected.
moved-GcReach : GcReach gc_bucket (needed ∷ []) objects moved
unfolding filter_score clone_score send_name delete_name hex encode
moved-GcReach =
    continues
      (continues
        (continues
          (continues
            (continues
              (continues (continues starts (lists garbage garbage-IsScore))
                (lists needed needed-IsScore))
              (filters garbage (needed ∷ []) refl))
            (filters needed [] refl))
          (clones garbage [] [] refl))
        (sends garbage [] [] refl))
      (deletes (src_name garbage) [] [] refl)

Reach-keeps_example :
    (find moved.bucket (src_name garbage) ≡ some (codes "old"))
    ⊎ ((s : Score) × (src_name garbage ≡ src_name s)
        × IsScore s
        × (has_score s (needed ∷ []) ≡ false)
        × (find moved.bucket (dst_name s) ≡ some (codes "old")))
unfolding hex encode
Reach-keeps_example =
    Reach-keeps gc_laws (needed ∷ []) objects moved moved-GcReach (src_name garbage) (codes "old")
      (has_prefix-append blob_prefix (hex garbage)) refl
