-- ===== src/Blob/ObjectRecord.antt =====
-- internal/blob/gcs_store.go: `ParseObjectRecord`, which reads back the records of the objects that
-- the store has created.
use comeback.Prelude.{
  ℕ, zero, suc, ◌+◌, ◌-◌, ◌*◌, ◌/◌, ◌%◌, ◌^◌, ◌<◌, ◌≤◌, ◌≡◌, refl, sym, ap, ◌∙◌, Bool, true, false,
  ◌&&◌, ◌||◌, Option, none, some, [], ◌∷◌, ◌++◌, if◌then◌else◌, ◌==◌, ltb, length, arith, All,
}
use comeback.Prelude.Go.{
  Bytes, Error, message, Result, ok, err, within, ◌>>=◌, >>=-passes, within-eq-ok,
  append-drop_prefix, eq_of_eq_bytes, eq_bytes, eq_bytes_self, has_prefix, drop_prefix,
  has_prefix-append, drop_prefix-append,
}
use comeback.Blob.Hex.{IsByte, digit, digit_value, encode, decode, decode-encode}
use comeback.Blob.Score.{
  Score, IsScore, hex, parse_hex_score, parse_hex_score-hex, length-encode, hex-parse_hex_score,
}
use comeback.Blob.Store.{SaveRequest}
use comeback.Blob.Gcs.{
  Metadata, Object, Bucket, Checksums, metadata_key_sha1, metadata_key_crc32c, metadata_key_md5,
  hex_digits, format_crc32c, make_name, create_request,
}

-- The loop of strconv.ParseUint over the digits.
abbrev parse_digits : (base acc : ℕ) → Bytes → Option ℕ
parse_digits base acc [] = some acc
parse_digits base acc (c ∷ s) = elim (digit_value c) [
  | none ↦ none
  | some v ↦ let rest = parse_digits base (acc * base + v) s in if ltb v base then rest else none
]

abbrev non_empty_digits : ℕ → Bytes → Option ℕ
non_empty_digits base [] = none
non_empty_digits base (c ∷ s) = parse_digits base 0 (c ∷ s)

-- strconv.ParseUint(s, 0, 32): `none` is an error, for the syntax or for the range.
abbrev pub parse_base : Bytes → Option ℕ
parse_base [] = none
parse_base (c ∷ []) = if c == b'0' then parse_digits 8 0 (c ∷ []) else parse_digits 10 0 (c ∷ [])
parse_base (c ∷ d ∷ s) =
    if c == b'0' && (d == b'x' || d == b'X')
    then non_empty_digits 16 s
    else if c == b'0'
    then parse_digits 8 0 (c ∷ d ∷ s)
    else parse_digits 10 0 (c ∷ d ∷ s)

unfoldable pub parse_uint32 : Bytes → Option ℕ
parse_uint32 s = elim (parse_base s) [
  | none ↦ none
  | some n ↦ if ltb n (2 ^ 32) then some n else none
]

-- v, ok := m[k]
abbrev pub find_key : Bytes → Metadata → Option Bytes
find_key k [] = none
find_key k ((j, v) ∷ m) = if eq_bytes j k then some v else find_key k m

abbrev pub require_key : Bytes → Metadata → Result Bytes
require_key k m = elim (find_key k m) [
  | none ↦ err (message "Object is missing metadata key")
  | some v ↦ ok v
]

abbrev pub guard : Bool → Error → Result (Unit {0})
guard true e = ok tt
guard false e = err e

-- `if v == none { return error }`
abbrev pub require {ℓ} : {A : Type ℓ} → Option A → Error → Result A
require none e = err e
require (some a) e = ok a

unfoldable pub parse_object_record : Object → (prefix : Bytes) → Result Score
parse_object_record o prefix = do
  _ ← guard (has_prefix o.name prefix) (message "Unexpected object name")
  let hex_score = drop_prefix o.name prefix
  score ← within "Unexpected hex score" (parse_hex_score hex_score)
  hex_sha1 ← require_key metadata_key_sha1 o.metadata
  _ ← guard (eq_bytes hex_sha1 hex_score) (message "Score/SHA-1 metadata mismatch")
  hex_crc32c ← require_key metadata_key_crc32c o.metadata
  crc32c ← require (parse_uint32 hex_crc32c) (message "invalid hex CRC32C")
  _ ← guard (crc32c % 2 ^ 32 == o.crc32c) (message "CRC32C mismatch")
  hex_md5 ← require_key metadata_key_md5 o.metadata
  _ ← guard (length hex_md5 / 2 == 16) (message "weird hex MD5 metadata")
  md5 ← require (decode hex_md5) (message "invalid hex MD5 in metadata")
  found ← require o.md5 (message "MD5 missing")
  _ ← guard (eq_bytes md5 found) (message "MD5 mismatch")
  ok score

digit_value-digit : (d : ℕ) → d < 16 → digit_value (digit d) ≡ some d
digit_value-digit d h = ground arith

-- 16 ^ f
abbrev span : ℕ → ℕ
span zero = 1
span (suc f) = 16 * span f

-- Reading the digits of `n` is reading `n` itself.
parse-hex_digits :
    (f k n : ℕ) (rest : Bytes)
    → n < span f
    → parse_digits 16 0 (hex_digits f k n rest) ≡ parse_digits 16 n rest
unfolding hex_digits
parse-hex_digits zero k n rest h = let e : n ≡ 0 = omega arith in rw e refl
parse-hex_digits (suc f) k n rest h =
    ground (
      arith,
      parse-hex_digits f (k - 1) (n / 16) (digit (n % 16) ∷ rest),
      digit_value-digit (n % 16),
    )

length-hex_digits : (f k n : ℕ) (rest : Bytes) → length rest ≤ length (hex_digits f k n rest)
unfolding hex_digits
length-hex_digits zero k n rest = omega arith
length-hex_digits (suc f) k n rest =
    ground (arith, length-hex_digits f (k - 1) (n / 16) (digit (n % 16) ∷ rest))

-- With a digit asked for there is one.
hex_digits-pos : (f k n : ℕ) → 0 < length (hex_digits (suc f) (suc k) n [])
unfolding hex_digits
hex_digits-pos f k n =
    ground (arith, length-hex_digits f (suc k - 1) (n / 16) (digit (n % 16) ∷ []))

non_empty : (s : Bytes) → 0 < length s → non_empty_digits 16 s ≡ parse_digits 16 0 s
non_empty [] h = absurd (omega arith)
non_empty (c ∷ s) h = refl

-- The checksum is read back from its text.
parse_uint32-format : (n : ℕ) → n < 2 ^ 32 → parse_uint32 (format_crc32c n) ≡ some n
unfolding parse_uint32 format_crc32c
parse_uint32-format n h = ground (
  arith,
  parse-hex_digits 8 8 n [] (omega arith),
  non_empty (hex_digits 8 8 n []) (hex_digits-pos 7 7 n),
)

module _ {B : Type 0} (bucket : Bucket B) (sums : Checksums) (prefix : Bytes) where
  -- The record of an object that the store asked for, with the checksums of its contents, is
  -- accepted, and gives the score that was asked for. The score has twenty bytes, the CRC32C fits in
  -- 32 bits and the MD5 sum has sixteen bytes.
  pub parse_object_record-create_request :
      (req : SaveRequest) (o : Object)
      → IsScore req.score
      → sums.crc32c req.blob < 2 ^ 32
      → length (sums.md5 req.blob) ≡ 16
      → All IsByte (sums.md5 req.blob)
      → o.name ≡ (create_request bucket prefix sums req).name
      → o.metadata ≡ (create_request bucket prefix sums req).metadata
      → o.crc32c ≡ sums.crc32c req.blob
      → o.md5 ≡ some (sums.md5 req.blob)
      → parse_object_record o prefix ≡ ok req.score
  unfolding parse_object_record create_request make_name hex
  parse_object_record-create_request req o score small len bytes name meta crc md5 =
      rw (name, meta)
        (ground (
          arith,
          has_prefix-append prefix (encode req.score),
          drop_prefix-append prefix (encode req.score),
          parse_hex_score-hex req.score score,
          eq_bytes_self (encode req.score),
          parse_uint32-format (sums.crc32c req.blob) small,
          length-encode (sums.md5 req.blob),
          decode-encode (sums.md5 req.blob) bytes,
          eq_bytes_self (sums.md5 req.blob),
        ))

guard-eq-ok : (b : Bool) (e : Error) {u : Unit {0}} → guard b e ≡ ok u → b ≡ true
guard-eq-ok true e h = refl
guard-eq-ok false e h = cc

require-eq-ok {ℓ} :
    {A : Type ℓ} (v : Option A) (e : Error) {a : A} → require v e ≡ ok a → v ≡ some a
require-eq-ok none e h = cc
require-eq-ok (some b) e h = ground arith

require_key-eq-ok :
    (k : Bytes) (m : Metadata) {v : Bytes} → require_key k m ≡ ok v → find_key k m ≡ some v
require_key-eq-ok k m h = ground arith

-- An object whose record is accepted is named by the score that is returned, has it in its
-- metadata, and has the MD5 sum that its metadata names.
pub parse_object_record_sound :
    (o : Object) (prefix : Bytes) (score : Score)
    → parse_object_record o prefix ≡ ok score
    → (o.name ≡ prefix ++ hex score)
      × IsScore score
      × (find_key metadata_key_sha1 o.metadata ≡ some (hex score))
      × ((hex_md5 : Bytes) × (find_key metadata_key_md5 o.metadata ≡ some hex_md5)
          × (decode hex_md5 ≡ o.md5))
unfolding parse_object_record
parse_object_record_sound o prefix score h =
    let (_, g1, h1) = >>=-passes (guard (has_prefix o.name prefix) _) _ h in
    let (score', g2, h2) =
      >>=-passes (within "Unexpected hex score" (parse_hex_score (drop_prefix o.name prefix))) _
        h1 in
    let (hex_sha1, g3, h3) = >>=-passes (require_key metadata_key_sha1 o.metadata) _ h2 in
    let (_, g4, h4) = >>=-passes (guard (eq_bytes hex_sha1 (drop_prefix o.name prefix)) _) _ h3 in
    let (hex_crc32c, g5, h5) = >>=-passes (require_key metadata_key_crc32c o.metadata) _ h4 in
    let (crc32c, g6, h6) = >>=-passes (require (parse_uint32 hex_crc32c) _) _ h5 in
    let (_, g7, h7) = >>=-passes (guard (crc32c % 2 ^ 32 == o.crc32c) _) _ h6 in
    let (hex_md5, g8, h8) = >>=-passes (require_key metadata_key_md5 o.metadata) _ h7 in
    let (_, g9, h9) = >>=-passes (guard (length hex_md5 / 2 == 16) _) _ h8 in
    let (md5, g10, h10) = >>=-passes (require (decode hex_md5) _) _ h9 in
    let (found, g11, h11) = >>=-passes (require o.md5 _) _ h10 in
    let (_, g12, h12) = >>=-passes (guard (eq_bytes md5 found) _) _ h11 in
    let p = append-drop_prefix prefix o.name (guard-eq-ok _ _ g1) in
    let (q, is_score) = hex-parse_hex_score _ score' (within-eq-ok _ _ g2) in
    let same : score' ≡ score = ground arith in
    let sha1 = eq_of_eq_bytes hex_sha1 (drop_prefix o.name prefix) (guard-eq-ok _ _ g4) in
    let eq_md5 = eq_of_eq_bytes md5 found (guard-eq-ok _ _ g12) in
    (
      rw (← same, q) (sym p),
      rw (← same) is_score,
      rw (← same, q) (require_key-eq-ok metadata_key_sha1 o.metadata g3 ∙ ap some sha1),
      (
        hex_md5,
        require_key-eq-ok metadata_key_md5 o.metadata g8,
        require-eq-ok (decode hex_md5) _ g10 ∙ ap some eq_md5 ∙ sym (require-eq-ok o.md5 _ g11),
      ),
    )
