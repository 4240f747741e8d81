-- ===== src/Blob/Stack/Saving.antt =====
-- The ways in which a save of internal/blob's existing-scores store over the GCS store goes.
use comeback.Prelude.{◌≡◌, ◌≢◌, refl, ap, some, true, false, Bool-cases, inl, inr, ◌++◌, arith}
use comeback.Prelude.Go.{Bytes, Result, ok, err, panic, drop_prefix, drop_prefix-append}
use comeback.Blob.Score.{
  Score, Hash, IsScore, compute_score, hex, parse_hex_score, parse_hex_score-hex,
}
use comeback.Blob.Store.{SaveRequest, WithScores, existing_scores_save}
use comeback.Blob.Gcs.{CreateRequest, Object, gcs_save, gcs_store, create_request, make_name}
use comeback.Blob.Stack.{Parts, BucketLaws}
use comeback.Util.StringSet.{StringSet, contains, add}

pub prefix_injective : (p s t : Bytes) → p ++ s ≡ p ++ t → s ≡ t
prefix_injective p s t e =
    cc (drop_prefix-append p s, drop_prefix-append p t, ap (λ (x : Bytes). drop_prefix x p) e)

pub hex_injective : (s t : Score) → IsScore s → IsScore t → hex s ≡ hex t → s ≡ t
hex_injective s t hs ht e =
    ground (arith, parse_hex_score-hex s hs, parse_hex_score-hex t ht, ap parse_hex_score e)

pub compute_score_lem : (h : Hash) (b : Bytes) → compute_score h b ≡ ok (h.sum b)
unfolding compute_score
compute_score_lem h b = ground (arith, h.sum_IsScore b)

module _ {B : Type 0} (p : Parts B) (laws : BucketLaws p.bucket) where
  abbrev pub text_of : Bytes → Bytes
  text_of c = hex (p.hash.sum c)

  -- What became of a save of `c`.
  pub data Saved (c : Bytes) (w w' : WithScores B) (r : Result Score) : Type 0 where
    known : contains (text_of c) w.scores ≡ true → r ≡ ok (p.hash.sum c) → w' ≡ w → Saved c w w' r
    stored :
        contains (text_of c) w.scores ≡ false
        → r ≡ ok (p.hash.sum c)
        → laws.object_at w'.inner (p.prefix ++ text_of c) ≡ some c
        → ((t : Bytes)
            → t ≢ text_of c
            → laws.object_at w'.inner (p.prefix ++ t) ≡ laws.object_at w.inner (p.prefix ++ t))
        → w'.scores ≡ add (text_of c) w.scores
        → Saved c w w' r
    failed :
        contains (text_of c) w.scores ≡ false
        → ((s : Score) → r ≢ ok s)
        → ((t : Bytes)
            → t ≢ text_of c
            → laws.object_at w'.inner (p.prefix ++ t) ≡ laws.object_at w.inner (p.prefix ++ t))
        → w'.scores ≡ w.scores
        → Saved c w w' r

  abbrev scored_save : SaveRequest → WithScores B → Result Score × WithScores B
  scored_save = existing_scores_save p.hash (gcs_store p.bucket p.prefix p.sums)

  module _ (req : SaveRequest) (w : WithScores B) where
    abbrev scored : SaveRequest
    scored = record req { score = p.hash.sum req.blob }

    abbrev creq : CreateRequest
    creq = create_request p.bucket p.prefix p.sums scored

    abbrev text : Bytes
    text = text_of req.blob

    abbrev through : Result Score × B
    through = gcs_save p.bucket p.prefix p.sums scored w.inner

    others_kept :
        (t : Bytes)
        → t ≢ text
        → laws.object_at through.1 (p.prefix ++ t) ≡ laws.object_at w.inner (p.prefix ++ t)
    unfolding gcs_save create_request make_name
    others_kept t ne =
        laws.others creq w.inner (p.prefix ++ t) (λ e. ne (prefix_injective p.prefix t text e))

    object_created :
        (r : Result Object)
        → (p.bucket.create_object creq w.inner).0 ≡ r
        → (s : Score) → through.0 ≡ ok s
        → laws.object_at through.1 (p.prefix ++ text) ≡ some req.blob
    unfolding gcs_save create_request make_name
    object_created (ok o) h s e = laws.created creq w.inner o h
    object_created (err x) h s e = absurd (ground arith)
    object_created panic h s e = absurd (ground arith)

    result_of : (r : Result Score) → Result Score
    result_of (ok _) = ok (p.hash.sum req.blob)
    result_of (err e) = err e
    result_of panic = panic

    scores_of : (r : Result Score) → StringSet
    scores_of (ok _) = add text w.scores
    scores_of (err e) = w.scores
    scores_of panic = w.scores

    scored_save_new :
        contains text w.scores ≡ false
        → (scored_save req w).0 ≡ result_of through.0
          × ((scored_save req w).1 ≡ record { inner = through.1; scores = scores_of through.0 })
    unfolding existing_scores_save result_of scores_of
    scored_save_new e = ground (arith, compute_score_lem p.hash req.blob)

    scored_save_known :
        contains text w.scores ≡ true
        → ((scored_save req w).0 ≡ ok (p.hash.sum req.blob)) × ((scored_save req w).1 ≡ w)
    unfolding existing_scores_save
    scored_save_known e = ground (arith, compute_score_lem p.hash req.blob)

    kept :
        contains text w.scores ≡ false
        → (t : Bytes) → t ≢ text
        → laws.object_at (scored_save req w).1.inner (p.prefix ++ t)
          ≡ laws.object_at w.inner (p.prefix ++ t)
    kept e t ne = rw (scored_save_new e).1 (others_kept t ne)

    Saved-new :
        (r : Result Score)
        → through.0 ≡ r
        → contains text w.scores ≡ false
        → Saved req.blob w (scored_save req w).1 (scored_save req w).0
    unfolding result_of scores_of
    Saved-new (ok s) h e =
        stored e (ground (arith, scored_save_new e))
          (rw (scored_save_new e).1
            (object_created (p.bucket.create_object creq w.inner).0 refl s h))
          (kept e) (ground (arith, scored_save_new e))
    Saved-new (err x) h e =
        failed e (λ s. ground (arith, scored_save_new e)) (kept e)
          (ground (arith, scored_save_new e))
    Saved-new panic h e =
        failed e (λ s. ground (arith, scored_save_new e)) (kept e)
          (ground (arith, scored_save_new e))

    pub Saved-scored_save : Saved req.blob w (scored_save req w).1 (scored_save req w).0
    Saved-scored_save = elim (Bool-cases (contains text w.scores)) [
      | inl e ↦ known e (scored_save_known e).0 (scored_save_known e).1
      | inr e ↦ Saved-new through.0 refl e
    ]
