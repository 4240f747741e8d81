-- ===== src/State/Tests.antt =====
-- The state of a first run, with a bucket that has one blob.
mod Saving
use comeback.Prelude.{ℕ, ◌≡◌, ◌≢◌, refl, true, false, none, some, is_some, [], ◌∷◌, ◌⊎◌}
use comeback.Prelude.Go.{codes, ok}
use comeback.Blob.Score.{hex, parse_hex_score, matches_hex_score}
use comeback.Blob.Hex.{encode, decode}
use comeback.Blob.Gcs.{make_name, create_request, format_crc32c, hex_digits}
use comeback.Blob.ObjectRecord.{parse_object_record, parse_uint32}
use comeback.Blob.Listing.{list_digits, parse_objects, list_scores}
use comeback.Blob.Listing.Sample.{lister, list_laws}
use comeback.Blob.Sample.{digits, made}
use comeback.Util.StringSet.{StringSet, add, contains}
use comeback.Verify.Scores.{list_all_scores}
use comeback.State.{
  State, missing, add_scores, build_existing_scores, load_state, fill_score_map, relist, make_state,
}
use comeback.State.Listed.{IsLoaded, IsListed, make_state_lem}

abbrev pub first_state : State ℕ ℕ
first_state = record {
  existing_scores = some (record { elems = hex digits ∷ [] });
  relist_time = 7;
  scores_for_files = some 5;
}

first_run : make_state lister 7 (λ t. false) 0 5 false missing (made ∷ []) ≡ ok first_state
unfolding list_all_scores list_scores list_digits parse_objects parse_object_record hex encode
    decode create_request parse_hex_score matches_hex_score make_name format_crc32c hex_digits
    parse_uint32 make_state relist fill_score_map load_state build_existing_scores add_scores add
    contains
first_run = refl

make_state_lem_example :
    (is_some first_state.scores_for_files ≡ true)
    × ((set : StringSet) × (first_state.existing_scores ≡ some set)
        × (IsLoaded {M = ℕ} (λ (t : ℕ). false) missing set
            ⊎ IsListed list_laws 7 (λ t. false) (made ∷ []) first_state set))
make_state_lem_example =
    make_state_lem list_laws 7 (λ t. false) 0 5 false missing (made ∷ []) first_state first_run
