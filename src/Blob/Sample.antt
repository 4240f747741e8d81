-- ===== src/Blob/Sample.antt =====
-- A bucket for internal/blob that is a list, and a small hash function.
use comeback.Prelude.{
  ℕ, zero, suc, ◌≡◌, ◌≢◌, refl, Option, none, some, List, [], ◌∷◌, arith, All, length,
  if◌then◌else◌, ◌%◌,
}
use comeback.Prelude.Go.{
  Bytes, codes, Error, Result, ok, err, eq_bytes, eq_bytes_self, eq_of_eq_bytes,
}
use comeback.Blob.Hex.{IsByte}
use comeback.Blob.Score.{Hash, Score, IsScore}
use comeback.Blob.Store.{WithScores, SaveRequest}
use comeback.Blob.Gcs.{Bucket, CreateRequest, Reader, Object, Checksums, create_request}
use comeback.Blob.Stack.{Parts, BucketLaws, IsValid}
use comeback.Util.StringSet.{contains}

-- The bytes of a blob, cut or padded to `n`.
abbrev pub pad : ℕ → Bytes → Bytes
pad zero b = []
pad (suc n) [] = 0 ∷ pad n []
pad (suc n) (c ∷ b) = c % 256 ∷ pad n b

pub length-pad : (n : ℕ) (b : Bytes) → length (pad n b) ≡ n
length-pad zero b = refl
length-pad (suc n) [] = omega (arith, length-pad n [])
length-pad (suc n) (c ∷ b) = omega (arith, length-pad n b)

pub pad-bytes : (n : ℕ) (b : Bytes) → All IsByte (pad n b)
pad-bytes zero b = tt
pad-bytes (suc n) [] = (omega arith, pad-bytes n [])
pad-bytes (suc n) (c ∷ b) = (omega arith, pad-bytes n b)

abbrev pub hash : Hash
hash = record { sum = pad 20; sum_IsScore = λ b. (length-pad 20 b, pad-bytes 20 b) }

abbrev pub Objects : Type 0
Objects = List (Bytes × Bytes)

abbrev pub find : Objects → Bytes → Option Bytes
find [] name = none
find ((k, c) ∷ os) name = if eq_bytes k name then some c else find os name

abbrev pub reader : Option Bytes → Result Reader
reader none = err (Error.outside 404)
reader (some c) = ok (record { read_all = ok c; close = ok tt })

abbrev pub bucket : Bucket Objects
bucket = record {
  create_object = λ req os. (
    ok (record {
      name = req.name;
      crc32c = req.crc32c;
      md5 = some req.md5;
      metadata = req.metadata;
    }),
    (req.name, req.contents) ∷ os,
  );
  new_reader = λ name os. reader (find os name);
}

pub find-created :
    (req : CreateRequest) (b : Objects)
    → find ((req.name, req.contents) ∷ b) req.name ≡ some req.contents
find-created req b = ground (arith, eq_bytes_self req.name)

pub find-others :
    (req : CreateRequest) (b : Objects) (name : Bytes)
    → name ≢ req.name
    → find ((req.name, req.contents) ∷ b) name ≡ find b name
find-others req b name h = ground (arith, eq_of_eq_bytes req.name name)

pub reader-found :
    (b : Objects) (name contents : Bytes)
    → find b name ≡ some contents
    → reader (find b name) ≡ ok (record { read_all = ok contents; close = ok tt })
reader-found b name contents h = ground arith

abbrev pub laws : BucketLaws bucket
laws = record {
  object_at = find;
  created = λ req b o h. find-created req b;
  others = find-others;
  readable = reader-found;
}

abbrev pub parts : Parts Objects
parts = record {
  bucket = bucket;
  prefix = codes "blobs/";
  hash = hash;
  sums = record { crc32c = length; md5 = pad 16 };
  crypter = record {
    encrypt = λ b. ok (9 ∷ b);
    decrypt = λ b. elim b [ [] ↦ err (Error.outside 1) | c ∷ cs ↦ ok cs ];
  };
}

abbrev pub empty_bucket : WithScores Objects
empty_bucket = record { inner = []; scores = record { elems = [] } }

pub empty-IsValid : IsValid parts laws empty_bucket
unfolding contains
empty-IsValid = record { stored = λ t m. cc }

pub decrypts : (b c : Bytes) → parts.crypter.encrypt b ≡ ok c → parts.crypter.decrypt c ≡ ok b
decrypts b c h = ground arith

abbrev pub digits : Score
digits = pad 20 (codes "score")

pub digits-IsScore : IsScore digits
digits-IsScore = (length-pad 20 (codes "score"), pad-bytes 20 (codes "score"))

abbrev pub small_sums : Checksums
small_sums = record { crc32c = length; md5 = pad 16 }

abbrev pub request : SaveRequest
request = record { blob = codes "hello"; score = digits }

-- The object that the bucket makes for the request.
abbrev pub made : Object
made = record {
  name = (create_request bucket (codes "blobs/") small_sums request).name;
  crc32c = 5;
  md5 = some (pad 16 (codes "hello"));
  metadata = (create_request bucket (codes "blobs/") small_sums request).metadata;
}
