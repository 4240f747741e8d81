-- ===== src/Blob/Gcs.antt =====
-- internal/blob/gcs_store.go: the store of blobs in a bucket of Google Cloud Storage.
-- The bucket is not the program's: it is a parameter, as are the checksums.
use comeback.Prelude.{
  ℕ, suc, ◌-◌, not, Option, none, some, List, [], ◌∷◌, ◌++◌, if◌then◌else◌, ◌==◌, ◌/◌, ◌%◌, zero,
}
use comeback.Prelude.Go.{Bytes, codes, Result, ok, panic, within, ◌>>=◌, eq_bytes}
use comeback.Blob.Hex.{digit, encode}
use comeback.Blob.Score.{Score, hex}
use comeback.Blob.Store.{SaveRequest, Store}

abbrev pub Metadata : Type 0
Metadata = List (Bytes × Bytes)

-- gcs.CreateObjectRequest, as far as it is filled in here.
pub record CreateRequest : Type 0 where
  pub name : Bytes
  pub contents : Bytes
  pub crc32c : ℕ
  pub md5 : Bytes
  pub metadata : Metadata

-- gcs.Object, as far as it is read here.
pub record Object : Type 0 where
  pub name : Bytes
  pub crc32c : ℕ
  pub md5 : Option Bytes
  pub metadata : Metadata

-- What `NewReader` gives: the outcomes of reading it to its end and of closing it.
pub record Reader : Type 0 where
  pub read_all : Result Bytes
  pub close : Result (Unit {0})

pub record Bucket (B : Type 0) : Type 0 where
  pub create_object : CreateRequest → B → Result Object × B
  pub new_reader : Bytes → B → Result Reader

-- gcsutil.CRC32C and gcsutil.MD5.
pub record Checksums : Type 0 where
  pub crc32c : Bytes → ℕ
  pub md5 : Bytes → Bytes

abbrev pub metadata_key_sha1 : Bytes
metadata_key_sha1 = codes "comeback_sha1"

abbrev pub metadata_key_crc32c : Bytes
metadata_key_crc32c = codes "comeback_crc32c"

abbrev pub metadata_key_md5 : Bytes
metadata_key_md5 = codes "comeback_md5"

-- The digits of a number in base 16, at least `k` and at most `fuel` of them, before `rest`.
unfoldable pub hex_digits : (fuel k n : ℕ) → Bytes → Bytes
hex_digits zero k n rest = rest
hex_digits (suc f) k n rest =
    let more = hex_digits f (k - 1) (n / 16) (digit (n % 16) ∷ rest) in
    if n == 0 then (if k == 0 then rest else more) else more

-- fmt.Sprintf("%#08x", n) for a uint32: `0x` and eight digits, since the width with a zero flag is
-- that of the digits.
unfoldable pub format_crc32c : ℕ → Bytes
format_crc32c n = codes "0x" ++ hex_digits 8 8 n []

unfoldable pub make_name : (prefix : Bytes) → Score → Bytes
make_name prefix score = prefix ++ hex score

module _ {B : Type 0} (bucket : Bucket B) (prefix : Bytes) where
  unfoldable pub create_request : Checksums → SaveRequest → CreateRequest
  unfolding make_name format_crc32c
  create_request c req = record {
    name = make_name prefix req.score;
    contents = req.blob;
    crc32c = c.crc32c req.blob;
    md5 = c.md5 req.blob;
    metadata =
        (metadata_key_sha1, encode req.score)
        ∷ (metadata_key_crc32c, format_crc32c (c.crc32c req.blob))
        ∷ (metadata_key_md5, encode (c.md5 req.blob))
        ∷ [];
  }

  -- The checks on the object that the bucket returns. Where it has no MD5 sum an error is set, and
  -- the next line reads through the nil pointer.
  unfoldable pub check_object : Checksums → SaveRequest → Object → Result Score
  check_object c req o = if not (o.crc32c == c.crc32c req.blob) then panic else elim o.md5 [
    | none ↦ panic
    | some md5 ↦ if not (eq_bytes md5 (c.md5 req.blob)) then panic else ok req.score
  ]

  unfoldable pub gcs_save : Checksums → SaveRequest → B → Result Score × B
  unfolding check_object
  gcs_save c req b =
      let (r, b') = bucket.create_object (create_request c req) b in
      (within "CreateObject" r >>= check_object c req, b')

  unfoldable pub gcs_load : Score → B → Result Bytes
  unfolding make_name
  gcs_load score b = do
    rc ← within "NewReader" (bucket.new_reader (make_name prefix score) b)
    blob ← within "ReadAll" rc.read_all
    _ ← within "Close" rc.close
    ok blob

  abbrev pub gcs_store : Checksums → Store B
  gcs_store c = record { save = gcs_save c; load = gcs_load }
