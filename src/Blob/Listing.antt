-- ===== src/Blob/Listing.antt =====
-- internal/blob/gcs_store.go: the listing of the blobs of a bucket. The bucket's own listing is a
-- parameter. The sixteen listings, which run at once, are taken one after the other here: the
-- program leaves their order open, and which error it returns where two calls fail.
pub mod Complete
pub mod Sample
use comeback.Prelude.{ℕ, suc, Option, none, some, List, [], ◌∷◌, ◌++◌}
use comeback.Prelude.Go.{Error, err, Bytes, codes, Result, ok, within, ◌>>=◌}
use comeback.Blob.Score.{Score}
use comeback.Blob.Gcs.{Object}
use comeback.Blob.ObjectRecord.{parse_object_record}

abbrev pub hex_digit_codes : Bytes
hex_digit_codes = codes "0123456789abcdef"

-- gcsutil.ListPrefix, and what the state of the context is when the next score is sent on.
pub record Lister (B : Type 0) : Type 0 where
  pub list_prefix : Bytes → B → Result (List Object)
  pub ctx_err : ℕ → Option Error

-- The `select` that sends a score on.
abbrev pub send_on : Option Error → Result (Unit {0})
send_on none = ok tt
send_on (some e) = err e

-- The loop over the records.
unfoldable pub parse_objects :
    (ctx_err : ℕ → Option Error) (sent : ℕ) → List Object → (prefix : Bytes) → Result (List Score)
parse_objects ctx_err sent [] prefix = ok []
parse_objects ctx_err sent (o ∷ os) prefix = do
  score ← within "ParseObjectRecord" (parse_object_record o prefix)
  _ ← send_on (ctx_err sent)
  rest ← parse_objects ctx_err (suc sent) os prefix
  ok (score ∷ rest)

module _ {B : Type 0} (lister : Lister B) where
  -- The loop over the digits.
  unfoldable pub list_digits : (prefix : Bytes) → Bytes → B → Result (List Object)
  list_digits prefix [] b = ok []
  list_digits prefix (d ∷ ds) b = do
    os ← lister.list_prefix (prefix ++ d ∷ []) b
    rest ← list_digits prefix ds b
    ok (os ++ rest)

  abbrev pub list_blob_objects : (prefix : Bytes) → B → Result (List Object)
  list_blob_objects prefix b = list_digits prefix hex_digit_codes b

  unfoldable pub list_scores : (prefix : Bytes) → B → Result (List Score)
  list_scores prefix b = do
    os ← within "ListBlobObjects" (list_blob_objects prefix b)
    parse_objects lister.ctx_err 0 os prefix
