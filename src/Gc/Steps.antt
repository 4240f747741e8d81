-- ===== src/Gc/Steps.antt =====
-- gc.go: every step of the pipeline keeps what is known of the scores and names under way.
use mathlib.Core.Path.{subst}
use comeback.Prelude.{
  ◌≡◌, inl, inr, refl, List, [], ◌∷◌, ◌++◌, All, All-map, All-append, All-middle, Bool-cases,
}
use comeback.Prelude.Go.{Bytes, Result, ok, err, panic}
use comeback.Blob.Score.{Score, IsScore}
use comeback.Verify.Resolver.{has_score}
use comeback.Gc.{
  src_name, dst_name, GcBucket, GcLaws, GcState, start_gc, filter_score, clone_score, copied_score,
  send_name, delete_name, GcStep, lists, filters, filter_stops, clones, sends, send_stops, deletes,
  GcReach, starts, continues,
}
use comeback.Gc.Invariant.{
  IsGarbage, Saved, Kept, Saved-copied, Saved-copy_object, Kept-copy_object, Saved-delete_object,
  Kept-delete_object,
}

taken {ℓ κ} :
    {A : Type ℓ} (P : A → Type κ) (zs xs ys : List A) (x : A)
    → zs ≡ xs ++ x ∷ ys
    → All P zs
    → P x × All P (xs ++ ys)
taken P zs xs ys x e h = All-middle P xs ys x (subst (All P) e h)

module _ {B : Type 0} {bucket : GcBucket B} (laws : GcLaws bucket) (accessible : List Score)
    (first : B) where
  -- A score whose object has been copied.
  pub record Cloned (b : B) (s : Score) : Type 0 where
    pub garbage : IsGarbage laws accessible first s
    pub saved : Saved laws accessible first b s

  pub record Deletable (b : B) (name : Bytes) : Type 0 where
    pub score : Score
    pub named : name ≡ src_name score
    pub cloned : Cloned b score

  pub record GcInv (st : GcState B) : Type 0 where
    pub all_scores : All IsScore st.all_scores
    pub garbage_scores : All (IsGarbage laws accessible first) st.garbage_scores
    pub cloned : All (Cloned st.bucket) st.cloned
    pub garbage_objects : All (Deletable st.bucket) st.garbage_objects
    pub kept : Kept laws accessible first st.bucket

  start_gc-GcInv : GcInv (start_gc first)
  start_gc-GcInv = record {
    all_scores = tt;
    garbage_scores = tt;
    cloned = tt;
    garbage_objects = tt;
    kept = λ name p. inl refl;
  }

  GcInv-filter_score :
      (st : GcState B) (s : Score) → IsScore s → GcInv st → GcInv (filter_score accessible s st)
  unfolding filter_score
  GcInv-filter_score st s u v = elim (Bool-cases (has_score s accessible)) [
    | inl e ↦ rw e v
    | inr e ↦ rw e (record {
      all_scores = v.all_scores;
      garbage_scores =
          All-append (IsGarbage laws accessible first) st.garbage_scores (s ∷ []) v.garbage_scores
            (record { score = u; inaccessible = e }, tt);
      cloned = v.cloned;
      garbage_objects = v.garbage_objects;
      kept = v.kept;
    })
  ]

  -- What a call of the bucket does not harm.
  kept_on :
      (st : GcState B) (b : B)
      → ((s : Score) → Cloned st.bucket s → Cloned b s)
      → Kept laws accessible first b
      → GcInv st
      → GcInv (record st { bucket = b })
  kept_on st b g k v = record {
    all_scores = v.all_scores;
    garbage_scores = v.garbage_scores;
    cloned = All-map (Cloned st.bucket) (Cloned b) st.cloned g v.cloned;
    garbage_objects =
        All-map (Deletable st.bucket) (Deletable b) st.garbage_objects
          (λ name d. record { score = d.score; named = d.named; cloned = g d.score d.cloned })
          v.garbage_objects;
    kept = k;
  }

  GcInv-clone_score :
      (st : GcState B) (s : Score)
      → IsGarbage laws accessible first s
      → GcInv st
      → GcInv (clone_score bucket s st)
  unfolding clone_score
  GcInv-clone_score st s g v = go (bucket.copy_object (src_name s) (dst_name s) st.bucket).0 refl
    where
      inv :
          GcInv (record st { bucket = (bucket.copy_object (src_name s) (dst_name s) st.bucket).1 })
      inv =
          kept_on st (bucket.copy_object (src_name s) (dst_name s) st.bucket).1
            (λ t c. record {
              garbage = c.garbage;
              saved =
                  Saved-copy_object laws accessible first st.bucket s t g.score c.garbage.score
                    v.kept c.saved;
            })
            (Kept-copy_object laws accessible first st.bucket s g.score v.kept) v

      go :
          (r : Result (Unit {0}))
          → (bucket.copy_object (src_name s) (dst_name s) st.bucket).0 ≡ r
          → GcInv (copied_score s r (bucket.copy_object (src_name s) (dst_name s) st.bucket).1 st)
      go (err e) h = inv
      go panic h = inv
      go (ok u) h = record {
        all_scores = inv.all_scores;
        garbage_scores = inv.garbage_scores;
        cloned = (
          record { garbage = g; saved = Saved-copied laws accessible first st.bucket s v.kept h },
          inv.cloned,
        );
        garbage_objects = inv.garbage_objects;
        kept = inv.kept;
      }

  GcInv-send_name :
      (st : GcState B) (s : Score) → Cloned st.bucket s → GcInv st → GcInv (send_name s st)
  unfolding send_name
  GcInv-send_name st s c v = record {
    all_scores = v.all_scores;
    garbage_scores = v.garbage_scores;
    cloned = v.cloned;
    garbage_objects =
        All-append (Deletable st.bucket) st.garbage_objects (src_name s ∷ []) v.garbage_objects
          (record { score = s; named = refl; cloned = c }, tt);
    kept = v.kept;
  }

  GcInv-delete_name :
      (st : GcState B) (name : Bytes)
      → Deletable st.bucket name
      → GcInv st
      → GcInv (delete_name bucket name st)
  unfolding delete_name
  GcInv-delete_name st name d v = rw d.named (
      kept_on st (bucket.delete_object (src_name d.score) st.bucket).1
        (λ t c. record {
          garbage = c.garbage;
          saved = Saved-delete_object laws accessible first st.bucket d.score t c.saved;
        })
        (Kept-delete_object laws accessible first st.bucket d.score d.cloned.garbage d.cloned.saved
          v.kept)
        v)

  Step-GcInv : {st st' : GcState B} → GcStep bucket accessible st st' → GcInv st → GcInv st'
  Step-GcInv {st} (lists s u) v = record {
    all_scores = All-append IsScore st.all_scores (s ∷ []) v.all_scores (u, tt);
    garbage_scores = v.garbage_scores;
    cloned = v.cloned;
    garbage_objects = v.garbage_objects;
    kept = v.kept;
  }
  Step-GcInv {st} (filters s ss h) v =
      let (u, us) = taken IsScore st.all_scores [] ss s h v.all_scores in
      GcInv-filter_score _ s u (record {
        all_scores = us;
        garbage_scores = v.garbage_scores;
        cloned = v.cloned;
        garbage_objects = v.garbage_objects;
        kept = v.kept;
      })
  Step-GcInv {st} (filter_stops s ss h) v =
      let (u, us) = taken IsScore st.all_scores [] ss s h v.all_scores in
      record {
        all_scores = us;
        garbage_scores = v.garbage_scores;
        cloned = v.cloned;
        garbage_objects = v.garbage_objects;
        kept = v.kept;
      }
  Step-GcInv {st} (clones s xs ys h) v =
      let (g, gs) =
        taken (IsGarbage laws accessible first) st.garbage_scores xs ys s h v.garbage_scores in
      GcInv-clone_score _ s g (record {
        all_scores = v.all_scores;
        garbage_scores = gs;
        cloned = v.cloned;
        garbage_objects = v.garbage_objects;
        kept = v.kept;
      })
  Step-GcInv {st} (sends s xs ys h) v =
      let (c, cs) = taken (Cloned st.bucket) st.cloned xs ys s h v.cloned in
      GcInv-send_name _ s c (record {
        all_scores = v.all_scores;
        garbage_scores = v.garbage_scores;
        cloned = cs;
        garbage_objects = v.garbage_objects;
        kept = v.kept;
      })
  Step-GcInv {st} (send_stops s xs ys h) v =
      let (c, cs) = taken (Cloned st.bucket) st.cloned xs ys s h v.cloned in
      record {
        all_scores = v.all_scores;
        garbage_scores = v.garbage_scores;
        cloned = cs;
        garbage_objects = v.garbage_objects;
        kept = v.kept;
      }
  Step-GcInv {st} (deletes name xs ys h) v =
      let (d, ds) = taken (Deletable st.bucket) st.garbage_objects xs ys name h v.garbage_objects in
      GcInv-delete_name _ name d (record {
        all_scores = v.all_scores;
        garbage_scores = v.garbage_scores;
        cloned = v.cloned;
        garbage_objects = ds;
        kept = v.kept;
      })

  pub Reach-GcInv : {st : GcState B} → GcReach bucket accessible first st → GcInv st
  Reach-GcInv starts = start_gc-GcInv
  Reach-GcInv (continues r s) = Step-GcInv s (Reach-GcInv r)
