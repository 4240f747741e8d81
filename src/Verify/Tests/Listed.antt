-- ===== src/Verify/Tests/Listed.antt =====
-- The scores of a bucket with one blob.
use mathlib.Core.List.{Memᴰ}
use comeback.Prelude.{◌≡◌, refl, true, [], ◌∷◌, ◌↔◌}
use comeback.Prelude.Go.{ok}
use comeback.Blob.Score.{IsScore, hex, parse_hex_score, matches_hex_score}
use comeback.Blob.Hex.{encode, decode}
use comeback.Blob.Gcs.{Object, make_name, create_request, format_crc32c, hex_digits}
use comeback.Blob.ObjectRecord.{parse_object_record, parse_uint32}
use comeback.Blob.Listing.{list_digits, parse_objects, list_scores}
use comeback.Blob.Listing.Sample.{lister, list_laws}
use comeback.Blob.Sample.{digits, made}
use comeback.Gc.{blob_prefix}
use comeback.Verify.Resolver.{has_score}
use comeback.Verify.Scores.{list_all_scores, list_all_scores-has_score}

listed : list_all_scores lister blob_prefix (made ∷ []) ≡ ok (digits ∷ [])
unfolding list_all_scores list_scores list_digits parse_objects parse_object_record hex encode
    decode create_request parse_hex_score matches_hex_score make_name format_crc32c hex_digits
    parse_uint32
listed = refl

list_all_scores-has_score_example : (has_score digits (digits ∷ []) ≡ true) ↔ (
    IsScore digits
    × ((o : Object) × Memᴰ o (list_laws.records (made ∷ []))
        × (o.name ≡ make_name blob_prefix digits)))
list_all_scores-has_score_example =
    list_all_scores-has_score list_laws blob_prefix (made ∷ []) (digits ∷ []) listed digits
