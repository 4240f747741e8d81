-- ===== src/State/Saved/Loaded.antt =====
-- state.go: what is in the file of the state after `saveStateStruct`.
use Prim.Native.String.{String}
use comeback.Prelude.{◌≡◌, ◌≢◌, refl, ap, ◌∙◌, some, Option, [], inl, inr, ◌⊎◌}
use comeback.Prelude.Go.{Bytes, Result, ok, err, panic}
use comeback.Prelude.Effects.{Effect, go_on, done, go_on-passes, still_ok}
use comeback.Util.StringSet.{Gob}
use comeback.State.{State}
use comeback.State.Saved.{
  FileCalls, StateGob, encode_state, save_state, after_save, after_temp_file,
}

-- What is documented of the calls, for the file that the state is kept in: a file with a new name is
-- empty and is not that one; what was written to it is in it when it has been closed without an error;
-- renaming is all or nothing; and a call leaves the files of other names alone.
pub record FileLaws {F : Type 0} (calls : FileCalls F) (dst : Bytes) : Type 0 where
  pub contents : F → Bytes → Option Bytes
  pub created :
      (f : F) (name : Bytes)
      → (calls.temp_file f).0 ≡ ok name
      → (contents (calls.temp_file f).1 name ≡ some []) × (dst ≢ name)
  pub temp_others : (f : F) → contents (calls.temp_file f).1 dst ≡ contents f dst
  pub stored :
      (name c : Bytes) (f : F)
      → contents f name ≡ some []
      → (calls.write name c f).0 ≡ ok tt
      → (calls.close name (calls.write name c f).1).0 ≡ ok tt
      → contents (calls.close name (calls.write name c f).1).1 name ≡ some c
  pub write_others :
      (name c : Bytes) (f : F) → dst ≢ name → contents (calls.write name c f).1 dst ≡ contents f dst
  pub close_others :
      (name : Bytes) (f : F) → dst ≢ name → contents (calls.close name f).1 dst ≡ contents f dst
  pub renamed :
      (name : Bytes) (f : F)
      → (calls.rename name dst f).0 ≡ ok tt
      → contents (calls.rename name dst f).1 dst ≡ contents f name
  pub not_renamed :
      (name : Bytes) (f : F)
      → (calls.rename name dst f).0 ≢ ok tt
      → contents (calls.rename name dst f).1 dst ≡ contents f dst

module _ {F : Type 0} (calls : FileCalls F) (dst : Bytes) (laws : FileLaws calls dst) where
  -- A call has succeeded, or the file of the state is what it was.
  abbrev pub Done : (before : Option Bytes) → Result (Unit {0}) × F → Type 0
  Done before x = (x.0 ≡ ok tt) ⊎ (laws.contents x.1 dst ≡ before)

  Done-last :
      (c : String) (before : Option Bytes) (x : Result (Unit {0}) × F)
      → (x.0 ≢ ok tt → laws.contents x.1 dst ≡ before)
      → Done before (go_on c x done)
  Done-last c before (ok u, f) k = inl refl
  Done-last c before (err e, f) k = inr (k (λ q. absurd (cc (q))))
  Done-last c before (panic, f) k = inr (k (λ q. absurd (cc (q))))

  Done-go_on :
      (c : String) (before : Option Bytes) (x : Result (Unit {0}) × F) (next : Effect F)
      → laws.contents x.1 dst ≡ before
      → ((f : F) → laws.contents f dst ≡ before → Done before (next f))
      → Done before (go_on c x next)
  Done-go_on c before (ok u, f) next e k = k f e
  Done-go_on c before (err x, f) next e k = inr e
  Done-go_on c before (panic, f) next e k = inr e

  Done-after_save :
      (name : Bytes) (before : Option Bytes) (x : Result (Unit {0}) × F)
      → dst ≢ name
      → laws.contents x.1 dst ≡ before
      → Done before (after_save calls name dst x)
  unfolding after_save
  Done-after_save name before (ok u, f) n e =
      Done-go_on "Close" before (calls.close name f) _ (laws.close_others name f n ∙ e) (λ f' e'.
        Done-last "Rename" before (calls.rename name dst f') (λ k. laws.not_renamed name f' k ∙ e'))
  Done-after_save name before (err x, f) n e = inr (laws.close_others name f n ∙ e)
  Done-after_save name before (panic, f) n e = inr (laws.close_others name f n ∙ e)

  after_save-passes :
      (name : Bytes) (x : Result (Unit {0}) × F)
      → (after_save calls name dst x).0 ≡ ok tt
      → (x.0 ≡ ok tt)
        × (after_save calls name dst x
            ≡ go_on "Close"
                (calls.close name x.1)
                (λ f. go_on "Rename" (calls.rename name dst f) done))
  unfolding after_save
  after_save-passes name (ok u, f) h = (refl, refl)
  after_save-passes name (err e, f) h = cc
  after_save-passes name (panic, f) h = cc

  -- What was written is in the file of the state, if all calls have succeeded.
  after_save-stores :
      (name c : Bytes) (f : F)
      → laws.contents f name ≡ some []
      → (after_save calls name dst (calls.write name c f)).0 ≡ ok tt
      → laws.contents (after_save calls name dst (calls.write name c f)).1 dst ≡ some c
  after_save-stores name c f empty h =
      let (wrote, e1) = after_save-passes name (calls.write name c f) h in
      let h1 = still_ok e1 h in
      let f1 = (calls.write name c f).1 in
      let (closed, e2) = go_on-passes "Close" (calls.close name f1) _ h1 in
      let f2 = (calls.close name f1).1 in
      let (renamed, e3) = go_on-passes "Rename" (calls.rename name dst f2) done (still_ok e2 h1) in
      rw (e1 ∙ e2 ∙ e3) (laws.renamed name f2 renamed ∙ laws.stored name c f empty wrote closed)

  module _ {T M : Type 0} (g : Gob) (sg : StateGob T M) where
    save_state_others :
        (name : Bytes) (s : State T M) (f : F)
        → dst ≢ name
        → laws.contents (save_state g sg calls name s f).1 dst ≡ laws.contents f dst
    unfolding save_state
    save_state_others name s f n = go (encode_state g sg s) refl
      where
        go :
            (r : Result Bytes)
            → encode_state g sg s ≡ r
            → laws.contents (save_state g sg calls name s f).1 dst ≡ laws.contents f dst
        go (ok c) e = rw (save_state, e) (laws.write_others name c f n)
        go (err x) e = rw (save_state, e) refl
        go panic e = rw (save_state, e) refl

    pub Done-after_temp_file :
        (s : State T M) (before : Option Bytes) (x : Result Bytes × F)
        → ((name : Bytes) → x.0 ≡ ok name → dst ≢ name)
        → laws.contents x.1 dst ≡ before
        → Done before (after_temp_file g sg calls dst s x)
    unfolding after_temp_file
    Done-after_temp_file s before (ok name, f) n e =
        Done-after_save name before (save_state g sg calls name s f) (n name refl)
          (save_state_others name s f (n name refl) ∙ e)
    Done-after_temp_file s before (err x, f) n e = inr e
    Done-after_temp_file s before (panic, f) n e = inr e

    pub after_temp_file-encodes :
        (s : State T M) (x : Result Bytes × F)
        → ((name : Bytes) → x.0 ≡ ok name → laws.contents x.1 name ≡ some [])
        → (after_temp_file g sg calls dst s x).0 ≡ ok tt
        → (c : Bytes) × (encode_state g sg s ≡ ok c)
          × (laws.contents (after_temp_file g sg calls dst s x).1 dst ≡ some c)
    unfolding after_temp_file save_state
    after_temp_file-encodes s (ok name, f) n h = go (encode_state g sg s) refl
      where
        go :
            (r : Result Bytes)
            → encode_state g sg s ≡ r
            → (c : Bytes) × (encode_state g sg s ≡ ok c)
              × (laws.contents (after_temp_file g sg calls dst s (ok name, f)).1 dst ≡ some c)
        go (ok c) e =
            let same : save_state g sg calls name s f ≡ calls.write name c f =
              rw (save_state, e) refl in
            let whole = ap (after_save calls name dst) same in
            (
              c,
              e,
              ap (λ (y : Result (Unit {0}) × F). laws.contents y.1 dst) whole
                  ∙ after_save-stores name c f (n name refl) (still_ok whole h),
            )
        go (err x) e =
            let same : save_state g sg calls name s f ≡ (err x, f) = rw (save_state, e) refl in
            let (failed, _) = after_save-passes name (save_state g sg calls name s f) h in
            absurd (cc (still_ok same failed))
        go panic e =
            let same : save_state g sg calls name s f ≡ (panic, f) = rw (save_state, e) refl in
            let (failed, _) = after_save-passes name (save_state g sg calls name s f) h in
            absurd (cc (still_ok same failed))
    after_temp_file-encodes s (err x, f) n h = cc
    after_temp_file-encodes s (panic, f) n h = cc
