-- ===== src/State.antt =====
-- state.go: the state that is kept between runs of the program. What the file of the state gives and
-- the listing of the bucket are parameters here, and so are the times and the map of scores.
pub mod Existing
pub mod Listed
pub mod Saved
mod Tests
use comeback.Prelude.{
  ◌≡◌, Bool, true, ◌||◌, not, none, some, Option, is_some, List, [], ◌∷◌, if◌then◌else◌,
}
use comeback.Prelude.Go.{Bytes, Error, Result, ok, err, within, ◌>>=◌}
use comeback.Blob.Score.{Score, hex}
use comeback.Blob.Gcs.{Object}
use comeback.Blob.Listing.{Lister}
use comeback.Gc.{blob_prefix}
use comeback.Util.StringSet.{StringSet, new_string_set, add}
use comeback.Verify.Scores.{list_all_scores}

-- `none` is nil. `T` is for times, and `M` for score maps.
pub record State (T M : Type 0) : Type 0 where
  pub existing_scores : Option StringSet
  pub relist_time : T
  pub scores_for_files : Option M

-- The loop over the slice.
unfoldable pub add_scores : List Score → StringSet → StringSet
add_scores [] set = set
add_scores (s ∷ ss) set = add_scores ss (add (hex s) set)

-- What `os.Open` gives for the file of the state, and `LoadState` for what is in it.
pub data StateFile (T M : Type 0) : Type 0 where
  missing : StateFile T M
  unopened : Error → StateFile T M
  opened : Result (State T M) → StateFile T M

unfoldable pub load_state : {T M : Type 0} → (zero_time : T) → StateFile T M → Result (State T M)
load_state zero_time missing =
    ok (record { existing_scores = none; relist_time = zero_time; scores_for_files = none })
load_state zero_time (unopened e) = err e
load_state zero_time (opened r) = within "LoadState" r

unfoldable pub fill_score_map :
    {T M : Type 0} → (new_score_map : M) (discard_score_cache : Bool) → State T M → State T M
fill_score_map new_score_map discard_score_cache s =
    if discard_score_cache || not (is_some s.scores_for_files)
    then record s { scores_for_files = some new_score_map }
    else s

module _ {B : Type 0} (lister : Lister B) where
  unfoldable pub build_existing_scores : B → Result StringSet
  build_existing_scores b = do
    slice ← within "listAllScores" (list_all_scores lister blob_prefix b)
    ok (add_scores slice new_string_set)

  module _ {T M : Type 0} (now : T) (is_old : T → Bool) where
    -- `is_old t` is `now.Sub(t) > maxAge`.
    unfoldable pub relist : B → State T M → Result (State T M)
    relist b s =
        if not (is_some s.existing_scores) || is_old s.relist_time
        then (do
          existing ← within "buildExistingScores" (build_existing_scores b)
          ok (record s { relist_time = now; existing_scores = some existing }))
        else ok s

    unfoldable pub make_state :
        (zero_time : T) (new_score_map : M) (discard_score_cache : Bool)
        → StateFile T M
        → B
        → Result (State T M)
    make_state zero_time new_score_map discard_score_cache file b = do
      s ← load_state zero_time file
      relist b (fill_score_map new_score_map discard_score_cache s)
