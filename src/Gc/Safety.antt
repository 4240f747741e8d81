-- ===== src/Gc/Safety.antt =====
-- gc.go: what is true in every state that the pipeline reaches.
use comeback.Prelude.{◌≡◌, ◌⊎◌, inl, inr, sym, ap, ◌∙◌, some, List, true, false}
use comeback.Prelude.Go.{Bytes, has_prefix}
use comeback.Blob.Score.{Score, IsScore}
use comeback.Verify.Resolver.{has_score}
use comeback.Gc.{blob_prefix, src_name, dst_name, GcBucket, GcLaws, GcState, GcReach}
use comeback.Gc.Steps.{Reach-GcInv}

module _ {B : Type 0} {bucket : GcBucket B} (laws : GcLaws bucket) (accessible : List Score)
    (first : B) where
  -- In every state that the workers reach, however their steps come and whichever calls of the
  -- bucket fail, every object that had a blob's name at first still has it and its contents, or it
  -- is under the garbage prefix with the same contents, and then its name is that of a score that
  -- is not accessible. The bucket changes no object but those it is called for.
  pub Reach-keeps :
      (st : GcState B)
      → GcReach bucket accessible first st
      → (name c : Bytes) → has_prefix name blob_prefix ≡ true
      → laws.object_at first name ≡ some c
      → (laws.object_at st.bucket name ≡ some c)
        ⊎ ((s : Score) × (name ≡ src_name s)
            × IsScore s
            × (has_score s accessible ≡ false)
            × (laws.object_at st.bucket (dst_name s) ≡ some c))
  Reach-keeps st r name c p h =
      let v = Reach-GcInv laws accessible first r in
      elim (v.kept name p) [
        | inl same ↦ inl (same ∙ h)
        | inr g ↦ inr (
          g.score,
          g.named,
          g.garbage.score,
          g.garbage.inaccessible,
          g.saved c (ap (laws.object_at first) (sym g.named) ∙ h),
        )
      ]
