-- ===== src/State/Listed.antt =====
-- state.go: which scores the state knows.
use comeback.Prelude.{
  ◌≡◌, is_some, not, refl, sym, ap, ◌∙◌, Bool, true, false, ◌||◌, none, some, Option, ◌↔◌, arith,
  inl, inr, ◌⊎◌, Bool-cases,
}
use comeback.Prelude.Go.{Bytes, ok, within, within-eq-ok, >>=-passes}
use comeback.Blob.Listing.{Lister}
use comeback.Blob.Listing.Complete.{ListLaws}
use comeback.Util.StringSet.{StringSet, contains}
use comeback.State.{
  State, StateFile, missing, unopened, opened, build_existing_scores, load_state, fill_score_map,
  relist, make_state,
}
use comeback.State.Existing.{Names, build_existing_scores-Names}

-- The set of scores is that of the file, which is not too old.
pub record IsLoaded {T M : Type 0} (is_old : T → Bool) (file : StateFile T M) (set : StringSet)
    : Type 0 where
  pub old : State T M
  pub loaded : file ≡ opened (ok old)
  pub scores : old.existing_scores ≡ some set
  pub recent : is_old old.relist_time ≡ false

module _ {B : Type 0} {lister : Lister B} (laws : ListLaws lister) where
  module _ {T M : Type 0} (now : T) (is_old : T → Bool) where
    -- The set of scores has just been listed.
    pub record IsListed (b : B) (s : State T M) (set : StringSet) : Type 0 where
      pub time : s.relist_time ≡ now
      pub names : (str : Bytes) → (contains str set ≡ true) ↔ Names laws b str

    -- What is kept of a state, and what is new.
    abbrev Relisted : B → State T M → State T M → Type 0
    Relisted b s s' =
        (s'.scores_for_files ≡ s.scores_for_files)
        × ((set : StringSet) × (s'.existing_scores ≡ some set)
            × (((s.existing_scores ≡ some set) × (is_old s.relist_time ≡ false))
                ⊎ IsListed b s' set))

    relist-listed :
        (b : B) (s s' : State T M)
        → not (is_some s.existing_scores) || is_old s.relist_time ≡ true
        → relist lister now is_old b s ≡ ok s'
        → Relisted b s s'
    unfolding relist
    relist-listed b s s' t h =
        let (set, g, e) =
          >>=-passes {last = s'} (within "buildExistingScores" (build_existing_scores lister b))
            (λ existing. ok (record s { relist_time = now; existing_scores = some existing }))
            (ground arith) in
        let same : record s { relist_time = now; existing_scores = some set } ≡ s' = ground arith in
        (
          ap (λ (x : State T M). x.scores_for_files) (sym same),
          (
            set,
            ap (λ (x : State T M). x.existing_scores) (sym same),
            inr (record {
              time = ap (λ (x : State T M). x.relist_time) (sym same);
              names = λ str.
                  build_existing_scores-Names laws b set str
                    (within-eq-ok "buildExistingScores" _ g);
            }),
          ),
        )

    relist-kept :
        (b : B) (s s' : State T M)
        → not (is_some s.existing_scores) || is_old s.relist_time ≡ false
        → relist lister now is_old b s ≡ ok s'
        → Relisted b s s'
    unfolding relist
    relist-kept b s s' t h = go s.existing_scores refl
      where
        same : s ≡ s'
        same = ground arith

        go : (o : Option StringSet) → s.existing_scores ≡ o → Relisted b s s'
        go none e = absurd (ground arith)
        go (some set) e = (
          ap (λ (x : State T M). x.scores_for_files) (sym same),
          (set, ap (λ (x : State T M). x.existing_scores) (sym same) ∙ e, inl (e, ground arith)),
        )

    relist-Relisted :
        (b : B) (s s' : State T M) → relist lister now is_old b s ≡ ok s' → Relisted b s s'
    relist-Relisted b s s' h =
        elim (Bool-cases (not (is_some s.existing_scores) || is_old s.relist_time)) [
          | inl t ↦ relist-listed b s s' t h
          | inr t ↦ relist-kept b s s' t h
        ]

    -- The set of scores of a state that is in a file is that of a file that was opened.
    from_file :
        (zero_time : T) (file : StateFile T M) (first : State T M) (set : StringSet)
        → load_state zero_time file ≡ ok first
        → first.existing_scores ≡ some set
        → is_old first.relist_time ≡ false
        → IsLoaded is_old file set
    unfolding load_state
    from_file zero_time missing first set g e t = absurd (ground arith)
    from_file zero_time (unopened x) first set g e t = absurd (ground arith)
    from_file zero_time (opened r) first set g e t = record {
      old = first;
      loaded = ap opened (within-eq-ok "LoadState" r g);
      scores = e;
      recent = t;
    }

    module _ (new_score_map : M) (discard_score_cache : Bool) where
      filled :
          (s : State T M)
          → (is_some (fill_score_map new_score_map discard_score_cache s).scores_for_files ≡ true)
            × ((fill_score_map new_score_map discard_score_cache s).existing_scores
                ≡ s.existing_scores)
            × ((fill_score_map new_score_map discard_score_cache s).relist_time ≡ s.relist_time)
      unfolding fill_score_map
      filled s = elim (Bool-cases (discard_score_cache || not (is_some s.scores_for_files))) [
        | inl t ↦ (ground arith, ground arith, ground arith)
        | inr t ↦ (ground arith, ground arith, ground arith)
      ]

    -- Once a state has been made, it has a map of scores and a set of scores. The set is that of the
    -- file of the state, if it was listed recently enough; else its strings are, with the time of
    -- the listing, those that the names of the bucket's blobs have after the prefix: no blob is
    -- forgotten, and none is thought to be in the bucket that was not. The bucket lists, for a
    -- prefix, objects that it has, and all of them that have it.
    pub make_state_lem :
        (zero_time : T) (new_score_map : M) (discard_score_cache : Bool) (file : StateFile T M)
        (b : B) (s : State T M)
        → make_state lister now is_old zero_time new_score_map discard_score_cache file b ≡ ok s
        → (is_some s.scores_for_files ≡ true)
          × ((set : StringSet) × (s.existing_scores ≡ some set)
              × (IsLoaded is_old file set ⊎ IsListed b s set))
    unfolding make_state
    make_state_lem zero_time new_score_map discard_score_cache file b s h =
        let (first, g, e) = >>=-passes (load_state zero_time file) _ h in
        let (some_map, same_set, same_time) = filled new_score_map discard_score_cache first in
        let (maps, (set, known, how)) = relist-Relisted b _ s e in
        (
          rw maps some_map,
          (
            set,
            known,
            elim how [
              | inl (same, recent) ↦ inl (
                  from_file zero_time file first set g (sym same_set ∙ same)
                    (sym (ap is_old same_time) ∙ recent))
              | inr listed ↦ inr listed
            ],
          ),
        )
