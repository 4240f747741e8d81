-- ===== src/Blob/Tests.antt =====
-- The stores of internal/blob on a bucket that is a list, with a small hash function.
use comeback.Prelude.{◌≡◌, refl, none, some, [], ◌∷◌, ◌++◌, arith}
use comeback.Prelude.Go.{Bytes, codes, ok}
use comeback.Blob.Hex.{encode, decode}
use comeback.Blob.Score.{compute_score, IsScore, hex}
use comeback.Blob.Store.{
  encrypting_load, checking_load, encrypting_save, existing_scores_save, SaveRequest,
}
use comeback.Blob.Gcs.{
  gcs_load, make_name, metadata_key_sha1, metadata_key_md5, gcs_save, check_object, create_request,
  Bucket, Object,
}
use comeback.Blob.ObjectRecord.{
  parse_object_record, find_key, parse_object_record-create_request, parse_object_record_sound,
}
use comeback.Blob.Stack.{IsValid, new_blob_store}
use comeback.Util.StringSet.{contains, add}
use comeback.Blob.Stack.Integrity.{Answer, load-score, gcs_save_lem}
use comeback.Blob.Stack.RoundTrip.{save_all, save-IsValid, load-save}
use comeback.Blob.Sample.{
  pad, pad-bytes, Objects, bucket, laws, parts, empty_bucket, empty-IsValid, decrypts, digits,
  digits-IsScore, small_sums, request, made,
}

abbrev hello : SaveRequest
hello = record { blob = codes "hello"; score = [] }

saved : ((new_blob_store parts).save hello empty_bucket).0 ≡ ok (pad 20 (9 ∷ codes "hello"))
unfolding encrypting_save existing_scores_save compute_score contains add create_request gcs_save
    check_object
saved = refl

unique :
    (c c' : Bytes)
    → parts.crypter.encrypt hello.blob ≡ ok c
    → laws.object_at empty_bucket.inner (parts.prefix ++ hex (parts.hash.sum c)) ≡ some c'
    → parts.hash.sum c' ≡ parts.hash.sum c
    → c' ≡ c
unique c c' e o s = cc

save-IsValid_example : IsValid parts laws ((new_blob_store parts).save hello empty_bucket).1
save-IsValid_example = save-IsValid parts laws hello empty_bucket empty-IsValid

-- Saved, and loaded after two more saves.
load-save_example :
    (new_blob_store parts).load (pad 20 (9 ∷ codes "hello")) (
      save_all parts laws
        (hello ∷ record { blob = codes "world"; score = [] } ∷ [])
        ((new_blob_store parts).save hello empty_bucket).1)
    ≡ ok (codes "hello")
load-save_example =
    load-save parts laws hello empty_bucket (pad 20 (9 ∷ codes "hello"))
      (hello ∷ record { blob = codes "world"; score = [] } ∷ []) empty-IsValid decrypts unique saved

parse_object_record-create_request_example : parse_object_record made (codes "blobs/") ≡ ok digits
parse_object_record-create_request_example =
    parse_object_record-create_request bucket small_sums (codes "blobs/") request made
      digits-IsScore (omega arith) refl (pad-bytes 16 (codes "hello")) refl refl refl refl

parse_object_record_sound_example :
    (made.name ≡ codes "blobs/" ++ hex digits)
    × IsScore digits
    × (find_key metadata_key_sha1 made.metadata ≡ some (hex digits))
    × ((hex_md5 : Bytes) × (find_key metadata_key_md5 made.metadata ≡ some hex_md5)
        × (decode hex_md5 ≡ made.md5))
parse_object_record_sound_example =
    parse_object_record_sound made (codes "blobs/") digits
      parse_object_record-create_request_example

-- The ciphertext of the blob that was saved is found.
loaded :
    (new_blob_store parts).load
      (pad 20 (9 ∷ codes "hello"))
      ((new_blob_store parts).save hello empty_bucket).1
    ≡ ok (codes "hello")
unfolding encrypting_load checking_load gcs_load make_name encrypting_save existing_scores_save
    compute_score contains add create_request gcs_save check_object hex encode
loaded = refl

load-score_example :
    (c : Bytes) × (parts.crypter.decrypt c ≡ ok (codes "hello"))
    × (parts.hash.sum c ≡ pad 20 (9 ∷ codes "hello"))
load-score_example =
    load-score parts ((new_blob_store parts).save hello empty_bucket).1 (pad 20 (9 ∷ codes "hello"))
      (codes "hello") loaded

-- A bucket whose objects have no MD5 sum.
abbrev without_md5 : Object
without_md5 = record { name = []; crc32c = 5; md5 = none; metadata = [] }

abbrev composing : Bucket Objects
composing = record {
  create_object = λ req os. (ok without_md5, os);
  new_reader = bucket.new_reader;
}

gcs_save_lem_example : Answer composing (codes "blobs/") small_sums request [] without_md5
gcs_save_lem_example =
    gcs_save_lem composing (codes "blobs/") small_sums request [] without_md5 refl
