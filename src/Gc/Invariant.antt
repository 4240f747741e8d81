-- ===== src/Gc/Invariant.antt =====
-- gc.go: what is true of the objects while garbage is moved.
use mathlib.Core.Path.{subst}
use comeback.Prelude.{
  ◌≡◌, ◌≢◌, ◌⊎◌, inl, inr, sym, ap, ◌∙◌, none, some, List, true, false, arith, Bool-cases,
}
use comeback.Prelude.Go.{
  Bytes, ok, eq_bytes, eq_bytes_self, eq_of_eq_bytes, has_prefix, has_prefix-append, drop_prefix,
}
use comeback.Blob.Score.{Score, IsScore, hex}
use comeback.Blob.Stack.Saving.{hex_injective}
use comeback.Verify.Resolver.{has_score}
use comeback.Gc.{blob_prefix, garbage_prefix, src_name, dst_name, GcBucket, GcLaws}

-- No name has both prefixes.
other_prefix : (s : Score) (name : Bytes) → has_prefix name blob_prefix ≡ true → name ≢ dst_name s
other_prefix s name h e =
    let k : has_prefix (dst_name s) blob_prefix ≡ true =
      subst (λ (n : Bytes). has_prefix n blob_prefix ≡ true) e h in
    cc

pub src_prefix : (s : Score) → has_prefix (src_name s) blob_prefix ≡ true
src_prefix s = has_prefix-append blob_prefix (hex s)

pub same_src : (s t : Score) → IsScore s → IsScore t → src_name s ≡ src_name t → s ≡ t
same_src s t u v e = hex_injective s t u v (ap (λ (n : Bytes). drop_prefix n blob_prefix) e)

same_dst : (s t : Score) → IsScore s → IsScore t → dst_name s ≡ dst_name t → s ≡ t
same_dst s t u v e = hex_injective s t u v (ap (λ (n : Bytes). drop_prefix n garbage_prefix) e)

name-cases : (m n : Bytes) → (m ≡ n) ⊎ (m ≢ n)
name-cases m n = elim (Bool-cases (eq_bytes m n)) [
  | inl e ↦ inl (eq_of_eq_bytes m n e)
  | inr e ↦ inr (λ p. absurd (ground (arith, p, e, eq_bytes_self n)))
]

module _ {B : Type 0} {bucket : GcBucket B} (laws : GcLaws bucket) (accessible : List Score)
    (first : B) where
  pub record IsGarbage (s : Score) : Type 0 where
    pub score : IsScore s
    pub inaccessible : has_score s accessible ≡ false

  -- The object that a score had at first has been copied.
  abbrev pub Saved : B → Score → Type 0
  Saved b s =
      (c : Bytes)
      → laws.object_at first (src_name s) ≡ some c
      → laws.object_at b (dst_name s) ≡ some c

  pub record Collected (b : B) (name : Bytes) : Type 0 where
    pub score : Score
    pub named : name ≡ src_name score
    pub garbage : IsGarbage score
    pub gone : laws.object_at b name ≡ none
    pub saved : Saved b score

  -- Blobs are as they were at first, or collected.
  abbrev pub Kept : B → Type 0
  Kept b =
      (name : Bytes)
      → has_prefix name blob_prefix ≡ true
      → (laws.object_at b name ≡ laws.object_at first name) ⊎ Collected b name

  -- What is still under a blob's name is what was there at first.
  first_contents :
      (b : B) (s : Score) (c d : Bytes)
      → Kept b
      → laws.object_at b (src_name s) ≡ some d
      → laws.object_at first (src_name s) ≡ some c
      → d ≡ c
  first_contents b s c d k h e = elim (k (src_name s) (src_prefix s)) [
    | inl same ↦ cc
    | inr gone ↦ absurd (cc (gone.gone))
  ]

  pub Saved-copied :
      (b : B) (s : Score)
      → Kept b
      → (bucket.copy_object (src_name s) (dst_name s) b).0 ≡ ok tt
      → Saved (bucket.copy_object (src_name s) (dst_name s) b).1 s
  Saved-copied b s k h c e =
      let (d, at_src, at_dst) = laws.copied (src_name s) (dst_name s) b h in
      rw (← first_contents b s c d k at_src e) at_dst

  pub Saved-copy_object :
      (b : B) (s t : Score)
      → IsScore s
      → IsScore t
      → Kept b
      → Saved b t
      → Saved (bucket.copy_object (src_name s) (dst_name s) b).1 t
  Saved-copy_object b s t u v k h c e = elim (name-cases (dst_name t) (dst_name s)) [
    | inr other ↦ laws.copy_others (src_name s) (dst_name s) (dst_name t) b other ∙ h c e
    | inl same ↦
        let p : s ≡ t = same_dst s t u v (sym same) in
        let b' = (bucket.copy_object (src_name s) (dst_name s) b).1 in
        elim (laws.target (src_name s) (dst_name s) b) [
          | inl unchanged ↦
              ap (laws.object_at b') same ∙ unchanged ∙ ap (laws.object_at b) (sym same) ∙ h c e
          | inr w ↦
              ap (laws.object_at b') same
              ∙ w.2
              ∙ ap some (
                  first_contents b s c w.0 k w.1
                    (ap (λ (x : Score). laws.object_at first (src_name x)) p ∙ e))
        ]
  ]

  pub Kept-copy_object :
      (b : B) (s : Score)
      → IsScore s
      → Kept b
      → Kept (bucket.copy_object (src_name s) (dst_name s) b).1
  Kept-copy_object b s u k name p =
      let unchanged = laws.copy_others (src_name s) (dst_name s) name b (other_prefix s name p) in
      elim (k name p) [
        | inl same ↦ inl (unchanged ∙ same)
        | inr g ↦ inr (record {
          score = g.score;
          named = g.named;
          garbage = g.garbage;
          gone = unchanged ∙ g.gone;
          saved = Saved-copy_object b s g.score u g.garbage.score k g.saved;
        })
      ]

  pub Saved-delete_object :
      (b : B) (s t : Score) → Saved b t → Saved (bucket.delete_object (src_name s) b).1 t
  Saved-delete_object b s t h c e =
      laws.delete_others (src_name s) (dst_name t) b
        (λ q. other_prefix t (src_name s) (src_prefix s) (sym q))
      ∙ h c e

  pub Kept-delete_object :
      (b : B) (s : Score)
      → IsGarbage s
      → Saved b s
      → Kept b
      → Kept (bucket.delete_object (src_name s) b).1
  Kept-delete_object b s g h k name p = elim (name-cases name (src_name s)) [
    | inr other ↦
        let unchanged = laws.delete_others (src_name s) name b other in
        elim (k name p) [
          | inl same ↦ inl (unchanged ∙ same)
          | inr c ↦ inr (record {
            score = c.score;
            named = c.named;
            garbage = c.garbage;
            gone = unchanged ∙ c.gone;
            saved = Saved-delete_object b s c.score c.saved;
          })
        ]
    | inl is_src ↦ elim (laws.deleted (src_name s) b) [
      | inr gone ↦ inr (record {
        score = s;
        named = is_src;
        garbage = g;
        gone = rw is_src gone;
        saved = Saved-delete_object b s s h;
      })
      | inl unchanged ↦ elim (k name p) [
        | inl same ↦ inl (rw is_src unchanged ∙ same)
        | inr c ↦ inr (record {
          score = c.score;
          named = c.named;
          garbage = c.garbage;
          gone = rw is_src unchanged ∙ c.gone;
          saved = Saved-delete_object b s c.score c.saved;
        })
      ]
    ]
  ]
