-- ===== src/State/Saved.antt =====
-- state.go and internal/state/state.go: the file that the state is saved to. The calls of the system
-- are parameters, and so is encoding/gob, with the encoding of times and of the vendored cache in the
-- score map; that of the set of scores is the set's own. What is encoded is written at once.
pub mod Loaded
pub mod Next
use comeback.Prelude.{Option, none, some}
use comeback.Prelude.Go.{Bytes, Result, ok, err, panic, within, ◌>>=◌}
use comeback.Prelude.Effects.{Effect, go_on, done}
use comeback.Util.StringSet.{StringSet, Gob, gob_encode, gob_decode}
use comeback.State.{State, StateFile, missing, opened}

-- ioutil.TempFile, which gives the name of the file, `Write` and `Close` of a file, and os.Rename.
pub record FileCalls (F : Type 0) : Type 0 where
  pub temp_file : F → Result Bytes × F
  pub write : (name contents : Bytes) → Effect F
  pub close : (name : Bytes) → Effect F
  pub rename : (old new : Bytes) → Effect F

module _ {F : Type 0} (calls : FileCalls F) where
  -- What follows `SaveState`. The deferred close is that of a file that is still open; after
  -- `Close` it does nothing.
  unfoldable pub after_save : (name dst : Bytes) → Result (Unit {0}) × F → Result (Unit {0}) × F
  after_save name dst (ok _, f) =
      go_on "Close" (calls.close name f) (λ f'. go_on "Rename" (calls.rename name dst f') done)
  after_save name dst (err e, f) = (within "SaveState" (err e), (calls.close name f).1)
  after_save name dst (panic, f) = (panic, (calls.close name f).1)

-- encoding/gob for the fields of a state, with the set of scores as it has encoded itself.
pub record StateGob (T M : Type 0) : Type 0 where
  pub encode : Option Bytes → T → Option M → Result Bytes
  pub decode : Bytes → Result (Option Bytes × T × Option M)

module _ {T M : Type 0} (g : Gob) (sg : StateGob T M) where
  abbrev pub encode_set : Option StringSet → Result (Option Bytes)
  encode_set none = ok none
  encode_set (some set) = gob_encode g set >>= λ e. ok (some e)

  abbrev pub decode_set : Option Bytes → Result (Option StringSet)
  decode_set none = ok none
  decode_set (some e) = gob_decode g e >>= λ set. ok (some set)

  unfoldable pub encode_state : State T M → Result Bytes
  encode_state s =
      encode_set s.existing_scores >>= λ e. sg.encode e s.relist_time s.scores_for_files

  unfoldable pub decode_state : Bytes → Result (State T M)
  decode_state b = do
    fields ← sg.decode b
    set ← decode_set fields.0
    ok (record { existing_scores = set; relist_time = fields.1; scores_for_files = fields.2 })

  -- The file as the next run finds it, with these contents or none.
  abbrev pub file_of : Option Bytes → StateFile T M
  file_of none = missing
  file_of (some contents) = opened (decode_state contents)

  module _ {F : Type 0} (calls : FileCalls F) where
    -- `SaveState` to the file of a name.
    unfoldable pub save_state : (name : Bytes) → State T M → Effect F
    save_state name s f = elim (encode_state s) [
      | ok contents ↦ calls.write name contents f
      | err e ↦ (err e, f)
      | panic ↦ (panic, f)
    ]

    -- What follows `TempFile`.
    unfoldable pub after_temp_file :
        (dst : Bytes) → State T M → Result Bytes × F → Result (Unit {0}) × F
    after_temp_file dst s (ok name, f) = after_save calls name dst (save_state name s f)
    after_temp_file dst s (err e, f) = (within "TempFile" (err e), f)
    after_temp_file dst s (panic, f) = (panic, f)

    unfoldable pub save_state_struct : (dst : Bytes) → State T M → Effect F
    save_state_struct dst s f = after_temp_file dst s (calls.temp_file f)
