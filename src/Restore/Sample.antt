-- ===== src/Restore/Sample.antt =====
-- A file that is saved to the sample bucket in chunks of three bytes.
use comeback.Prelude.{
  ℕ, zero, suc, ◌<◌, ◌≤◌, ◌≡◌, refl, ap, Option, none, some, List, [], ◌∷◌, ◌++◌, arith, All,
  length, length-append, if◌then◌else◌,
}
use comeback.Prelude.Int.{pos}
use comeback.Prelude.Go.{Bytes, codes, Error, ok, err, eq_bytes, eq_bytes_self}
use comeback.Blob.Score.{Score}
use comeback.Blob.Store.{WithScores}
use comeback.Blob.Keeping.{Keeps}
use comeback.Blob.Sample.{Objects, pad, parts, laws, empty_bucket, empty-IsValid, decrypts}
use comeback.Blob.Stack.{new_blob_store}
use comeback.Blob.Stack.Kept.{stack_keeps, IsGood, IsAllowed, AllKnown}
use comeback.Repr.Info.{file, Time}
use comeback.Save.File.{OpenFile, FsNode, ScoreMapKey, ScoreMap, Saving}
use comeback.Save.Loads.{AreAllowed}
use comeback.Restore.File.{Disk, DiskLaws}
use comeback.Util.StringSet.{contains}
use comeback.Prelude.Go.{Result}
use comeback.Blob.Score.{compute_score, hex}
use comeback.Blob.Hex.{encode}
use comeback.Blob.Store.{encrypting_save, existing_scores_save}
use comeback.Blob.Gcs.{gcs_save, make_name, check_object, create_request}
use comeback.Repr.Marshal.{marshal_file}
use comeback.Save.File.{make_score_map_key, save_file_chunk, save_chunks, save_file}
use comeback.Util.StringSet.{add}

-- A byte that padding does not produce.
abbrev pub NonZero : ℕ → Type 0
NonZero c = (0 < c) × (c < 256)

-- Blobs that the sample hash tells apart.
abbrev pub Short : Bytes → Type 0
Short c = (length c ≤ 20) × All NonZero c

pub pad_injective :
    (n : ℕ) (b c : Bytes)
    → length b ≤ n
    → length c ≤ n
    → All NonZero b
    → All NonZero c
    → pad n c ≡ pad n b
    → c ≡ b
pad_injective zero [] [] l m h k e = refl
pad_injective zero [] (x ∷ c) l m h k e = absurd (omega arith)
pad_injective zero (x ∷ b) c l m h k e = absurd (omega arith)
pad_injective (suc n) [] [] l m h k e = refl
pad_injective (suc n) [] (x ∷ c) l m h k e = absurd (ground arith)
pad_injective (suc n) (x ∷ b) [] l m h k e = absurd (ground arith)
pad_injective (suc n) (x ∷ b) (y ∷ c) l m h k e = ground (arith, pad_injective n b c)

pub distinct : (c c' : Bytes) → Short c → Short c' → pad 20 c' ≡ pad 20 c → c' ≡ c
distinct c c' s s' e = pad_injective 20 c c' s.0 s'.0 s.1 s'.1 e

abbrev pub keeps : Keeps (new_blob_store parts)
keeps = stack_keeps parts laws decrypts Short distinct

pub empty-IsGood : keeps.IsGood empty_bucket
unfolding IsGood AllKnown contains
empty-IsGood = (empty-IsValid, λ t c m o. cc)

All-right : (x y : Bytes) → All NonZero (x ++ y) → All NonZero y
All-right [] y h = h
All-right (c ∷ x) y h = All-right x y h.1

All-left : (x y : Bytes) → All NonZero (x ++ y) → All NonZero x
All-left [] y h = tt
All-left (c ∷ x) y h = (h.0, All-left x y h.1)

All-both : (x y : Bytes) → All NonZero x → All NonZero y → All NonZero (x ++ y)
All-both [] y h k = k
All-both (c ∷ x) y h k = (h.0, All-both x y h.1 k)

abbrev pub taco : Bytes
taco = codes "taco"

taco-NonZero : All NonZero taco
taco-NonZero = ground arith

pub taco_allowed : AreAllowed (new_blob_store parts) keeps taco
unfolding IsAllowed
taco_allowed before b after e c h =
    let is : 9 ∷ (b ++ b'f' ∷ []) ≡ c = ground arith in
    let all : All NonZero ((before ++ b) ++ after) = rw (← e) taco-NonZero in
    let some_left = All-right before b (All-left (before ++ b) after all) in
    let size : 4 ≡ length ((before ++ b) ++ after) = ap length e in
    rw (← is) (
      omega (
        arith,
        size,
        length-append (before ++ b) after,
        length-append before b,
        length-append b (b'f' ∷ []),
      ),
      ((omega arith, omega arith), All-both b (b'f' ∷ []) some_left (ground arith)),
    )

-- A file system of contents by their paths.
abbrev pub Paths : Type 0
Paths = Bytes → Option Bytes

abbrev pub written_at : Bytes → Bytes → Option Bytes → Option Bytes
written_at path chunk none = none
written_at path chunk (some b) = some (b ++ chunk)

abbrev pub disk : Disk Paths
disk = record {
  open_file = λ path f. (
    elim (f path) [ none ↦ ok tt | some b ↦ err (Error.outside 17) ],
    λ q. if eq_bytes path q then some [] else f q,
  );
  write =
      λ path chunk f. (ok tt, λ q. if eq_bytes path q then written_at path chunk (f q) else f q);
  close = λ path f. (ok tt, f);
}

pub open_file-contents :
    (path : Bytes) (f : Paths)
    → (disk.open_file path f).0 ≡ ok tt
    → (disk.open_file path f).1 path ≡ some []
open_file-contents path f h = ground (arith, eq_bytes_self path)

pub write-contents :
    (path chunk before : Bytes) (f : Paths)
    → f path ≡ some before
    → (disk.write path chunk f).0 ≡ ok tt
    → (disk.write path chunk f).1 path ≡ some (before ++ chunk)
write-contents path chunk before f h k = ground (arith, eq_bytes_self path)

abbrev pub disk_laws : DiskLaws disk
disk_laws = record {
  contents = λ f. f;
  opened = open_file-contents;
  written = write-contents;
  closed = λ path f. refl;
}

-- A score map by paths.
abbrev pub Scores : Type 0
Scores = List (Bytes × List Score)

abbrev find_scores : Bytes → Scores → Option (List Score)
find_scores path [] = none
find_scores path ((p, v) ∷ m) = if eq_bytes p path then some v else find_scores path m

abbrev pub score_map : ScoreMap Scores
score_map = record { set = λ k v m. (k.path, v) ∷ m; get = λ k m. find_scores k.path m }

pub score_map_law :
    (k : ScoreMapKey) (v : List Score) (m : Scores) → score_map.get k (score_map.set k v m) ≡ some v
score_map_law k v m = ground (arith, eq_bytes_self k.path)

abbrev pub node : FsNode
node = record {
  rel_path = codes "taco.txt";
  info = record {
    type = file;
    name = codes "taco.txt";
    permissions = 420;
    uid = 501;
    username = none;
    gid = 20;
    groupname = none;
    m_time = record { second = pos 1000; nanosecond = 0 };
    size = 4;
    containing_device = pos 1;
    inode = 17;
    scores = [];
    hard_link_target = none;
    target = [];
    device_number = pos 0;
  };
}

-- Ten minutes later.
abbrev pub now : Time
now = record { second = pos 1600; nanosecond = 0 }

abbrev pub key : ScoreMapKey
key = record {
  path = codes "taco.txt";
  permissions = 420;
  uid = 501;
  gid = 20;
  m_time = record { second = pos 1000; nanosecond = 0 };
  inode = 17;
  size = 4;
}

abbrev pub taco_file : OpenFile
taco_file = record { rest = taco; failure = none }

abbrev pub first : Saving (WithScores Objects) Scores
first = record { blobs = empty_bucket; score_map = [] }

abbrev pub saving : Option (Result (List Score)) × Saving (WithScores Objects) Scores
saving =
    save_file (new_blob_store parts) (λ f s. ok tt) score_map (λ path. ok taco_file) 5 3 now node
      first

abbrev pub scores : List Score
scores = pad 20 (9 ∷ codes "tacf") ∷ pad 20 (9 ∷ codes "of") ∷ []

pub keyed : make_score_map_key node now ≡ some key
unfolding make_score_map_key
keyed = refl

pub saved : saving.0 ≡ some (ok scores)
unfolding save_file make_score_map_key save_chunks save_file_chunk marshal_file encrypting_save
    existing_scores_save compute_score contains add create_request gcs_save check_object hex encode
    make_name
saved = refl
