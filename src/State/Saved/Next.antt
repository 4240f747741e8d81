-- ===== src/State/Saved/Next.antt =====
-- state.go: the state that the next run has.
use comeback.Prelude.{
  ◌≡◌, ◌≢◌, refl, sym, ap, ◌∙◌, Bool, false, some, Option, List, arith, inl, inr, ◌⊎◌,
}
use comeback.Prelude.Go.{Bytes, Result, ok, err, panic, ◌>>=◌, >>=-passes}
use comeback.Blob.Listing.{Lister}
use comeback.Util.StringSet.{StringSet, Gob, gob_encode, gob_round_trip, contains}
use comeback.State.{State, opened, load_state, fill_score_map, relist, make_state}
use comeback.State.Saved.{
  FileCalls, StateGob, encode_set, encode_state, decode_state, file_of, save_state_struct,
}
use comeback.State.Saved.Loaded.{FileLaws, Done, Done-after_temp_file, after_temp_file-encodes}

-- A state has what another one had, with the same scores in its set.
pub record IsSame {T M : Type 0} (s t : State T M) (set : StringSet) : Type 0 where
  pub known : StringSet
  pub existing_scores : t.existing_scores ≡ some known
  pub same_scores : (str : Bytes) → contains str known ≡ contains str set
  pub relist_time : t.relist_time ≡ s.relist_time
  pub scores_for_files : t.scores_for_files ≡ s.scores_for_files

-- encoding/gob reads back what it has written.
pub record GobLaws {T M : Type 0} (g : Gob) (sg : StateGob T M) : Type 0 where
  pub strings_back : (l : List Bytes) (e : Bytes) → g.encode l ≡ ok e → g.decode e ≡ ok l
  pub fields_back :
      (e : Option Bytes) (t : T) (m : Option M) (b : Bytes)
      → sg.encode e t m ≡ ok b
      → sg.decode b ≡ ok (e, t, m)

ok_injective : (x y : Option Bytes) → ok x ≡ ok y → x ≡ y
ok_injective x y h = ground arith

decode_state-encode_state :
    {T M : Type 0} (g : Gob) (sg : StateGob T M) (laws : GobLaws g sg) (s : State T M)
    (set : StringSet) (c : Bytes)
    → s.existing_scores ≡ some set
    → encode_state g sg s ≡ ok c
    → (t : State T M) × (decode_state g sg c ≡ ok t) × IsSame s t set
unfolding encode_state decode_state
decode_state-encode_state g sg laws s set c e h =
    let h' =
      ap
        (λ (o : Option StringSet).
          encode_set g sg o >>= λ x. sg.encode x s.relist_time s.scores_for_files)
        (sym e)
      ∙ h in
    let (d', h1, h2) = >>=-passes (gob_encode g set >>= λ d. ok (some d)) _ h' in
    let (d, encoded, h3) = >>=-passes (gob_encode g set) _ h1 in
    let (known, read, same) = gob_round_trip g set d laws.strings_back encoded in
    let whole : some d ≡ d' = ok_injective (some d) d' h3 in
    let fields = laws.fields_back d' s.relist_time s.scores_for_files c h2 in
    (
      record {
        existing_scores = some known;
        relist_time = s.relist_time;
        scores_for_files = s.scores_for_files;
      },
      rw (fields, ← whole, read) refl,
      record {
        known = known;
        existing_scores = refl;
        same_scores = same;
        relist_time = refl;
        scores_for_files = refl;
      },
    )

module _ {B T M : Type 0} (lister : Lister B) (now zero_time : T) (is_old : T → Bool)
    (new_score_map : M) where
  make_state-opened :
      (s : State T M) (set : StringSet) (m : M) (b : B)
      → s.existing_scores ≡ some set
      → s.scores_for_files ≡ some m
      → is_old s.relist_time ≡ false
      → make_state lister now is_old zero_time new_score_map false (opened (ok s)) b ≡ ok s
  unfolding make_state load_state fill_score_map relist
  make_state-opened s set m b e f t = ground arith

  -- When the state is saved without an error, the next run has a state with the same strings in its set
  -- of scores, the same time of listing and the same score map, if the listing is not too old then and
  -- the score map is not to be discarded. When there is an error, what is under the name of the state's
  -- file is what was there before. The state has a set of scores and a score map; encoding/gob reads
  -- back what it has written; and of the calls, what was written is in a file that was closed without
  -- an error, and renaming is all or nothing.
  pub save_state_struct_lem :
      {F : Type 0} (calls : FileCalls F) (dst : Bytes) (laws : FileLaws calls dst) (g : Gob)
      (sg : StateGob T M) (gob_laws : GobLaws g sg) (s : State T M) (set : StringSet) (m : M)
      (f : F) (b : B)
      → s.existing_scores ≡ some set
      → s.scores_for_files ≡ some m
      → is_old s.relist_time ≡ false
      → (((save_state_struct g sg calls dst s f).0 ≡ ok tt)
          × ((t : State T M) × (make_state lister now is_old zero_time new_score_map false
                  (file_of g sg (laws.contents (save_state_struct g sg calls dst s f).1 dst))
                  b
                ≡ ok t)
              × IsSame s t set))
        ⊎ (((save_state_struct g sg calls dst s f).0 ≢ ok tt)
            × (laws.contents (save_state_struct g sg calls dst s f).1 dst ≡ laws.contents f dst))
  unfolding save_state_struct
  save_state_struct_lem {F} calls dst laws g sg gob_laws s set m f b e k t =
      go (save_state_struct g sg calls dst s f).0 refl
    where
      saved : Result (Unit {0}) × F
      saved = save_state_struct g sg calls dst s f

      kept : Done calls dst laws (laws.contents f dst) saved
      kept =
          Done-after_temp_file calls dst laws g sg s (laws.contents f dst) (calls.temp_file f)
            (λ name q. (laws.created f name q).1) (laws.temp_others f)

      failed :
          saved.0 ≢ ok tt
          → (((saved.0 ≡ ok tt)
                × ((t : State T M) × (make_state lister now is_old zero_time new_score_map false
                        (file_of g sg (laws.contents saved.1 dst))
                        b
                      ≡ ok t)
                    × IsSame s t set))
              ⊎ ((saved.0 ≢ ok tt) × (laws.contents saved.1 dst ≡ laws.contents f dst)))
      failed n = elim kept [ inl q ↦ absurd (n q) | inr same ↦ inr (n, same) ]

      go :
          (r : Result (Unit {0}))
          → saved.0 ≡ r
          → (((saved.0 ≡ ok tt)
                × ((t : State T M) × (make_state lister now is_old zero_time new_score_map false
                        (file_of g sg (laws.contents saved.1 dst))
                        b
                      ≡ ok t)
                    × IsSame s t set))
              ⊎ ((saved.0 ≢ ok tt) × (laws.contents saved.1 dst ≡ laws.contents f dst)))
      go (ok u) q =
          let (c, encoded, there) =
            after_temp_file-encodes calls dst laws g sg s (calls.temp_file f)
              (λ name p. (laws.created f name p).0) q in
          let (next, decoded, same) = decode_state-encode_state g sg gob_laws s set c e encoded in
          inl (
            q,
            (
              next,
              rw (there, decoded)
                  (make_state-opened next same.known m b same.existing_scores
                    (same.scores_for_files ∙ k) (ap is_old same.relist_time ∙ t)),
              same,
            ),
          )
      go (err x) q = failed (λ p. absurd (cc (q, p)))
      go panic q = failed (λ p. absurd (cc (q, p)))
