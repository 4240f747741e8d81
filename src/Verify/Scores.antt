-- ===== src/Verify/Scores.antt =====
-- verify.go: `listAllScores`, the scores that the verification knows.
use mathlib.Core.List.{Memᴰ}
use mathlib.Core.List.Memᴰ
use comeback.Prelude.{◌≡◌, sym, true, List, [], ◌∷◌, ◌↔◌, Bool-cases, inl, inr, arith}
use comeback.Prelude.Go.{
  Bytes, Result, ok, within, within-eq-ok, eq_bytes, eq_bytes_self, eq_of_eq_bytes,
}
use comeback.Blob.Score.{Score, IsScore}
use comeback.Blob.Gcs.{Object, make_name}
use comeback.Blob.Listing.{Lister, list_scores}
use comeback.Blob.Listing.Complete.{ListLaws, list_scores-finds, list_scores-found}
use comeback.Gc.{blob_prefix}
use comeback.Verify.Resolver.{has_score}

-- The prefix that is given is not used.
unfoldable pub list_all_scores :
    {B : Type 0} → Lister B → (name_prefix : Bytes) → B → Result (List Score)
list_all_scores lister name_prefix b = within "ListScores" (list_scores lister blob_prefix b)

pub Mem-has_score : (s : Score) (ss : List Score) → has_score s ss ≡ true → Memᴰ s ss
Mem-has_score s [] h = cc
Mem-has_score s (t ∷ ss) h = elim (Bool-cases (eq_bytes t s)) [
  | inl e ↦ Memᴰ.head (sym (eq_of_eq_bytes t s e))
  | inr e ↦ Memᴰ.tail (Mem-has_score s ss (ground arith))
]

pub has_score-Mem : (s : Score) (ss : List Score) → Memᴰ s ss → has_score s ss ≡ true
has_score-Mem s [] m = absurd (Memᴰ.not-nil m)
has_score-Mem s (t ∷ ss) m = elim (Memᴰ.cases_cons m) [
  | inl p ↦ ground (arith, p, eq_bytes_self s)
  | inr n ↦ ground (arith, has_score-Mem s ss n)
]

-- When all scores have been listed without an error, a score is among them if and only if it is the
-- score, of twenty bytes, in the name of an object of the bucket: none is missed, and none is made
-- up. The bucket lists, for a prefix, objects that it has, and all of them that have it.
pub list_all_scores-has_score :
    {B : Type 0} {lister : Lister B} (laws : ListLaws lister) (name_prefix : Bytes) (b : B)
    (ss : List Score)
    → list_all_scores lister name_prefix b ≡ ok ss
    → (s : Score)
    → (has_score s ss ≡ true)
      ↔ (IsScore s × ((o : Object) × Memᴰ o (laws.records b) × (o.name ≡ make_name blob_prefix s)))
unfolding list_all_scores
list_all_scores-has_score laws name_prefix b ss h s =
    let e = within-eq-ok "ListScores" _ h in
    (
      λ m. list_scores-found laws blob_prefix b ss s e (Mem-has_score s ss m),
      λ (u, (o, m, named)).
          has_score-Mem s ss (list_scores-finds laws blob_prefix b ss o s e m u named),
    )
