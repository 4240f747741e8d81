-- ===== src/State/Existing.antt =====
-- state.go: the set of scores that the listing of the bucket gives.
use mathlib.Core.Path.{subst}
use mathlib.Core.List.{Memᴰ}
use mathlib.Core.List.Memᴰ
use comeback.Prelude.{
  ◌≡◌, ◌≢◌, refl, sym, true, List, [], ◌∷◌, ◌↔◌, arith, inl, inr, ◌⊎◌, Bool-cases,
}
use comeback.Prelude.Go.{
  Bytes, ok, within, within-eq-ok, >>=-passes, eq_bytes, eq_bytes_self, eq_of_eq_bytes,
}
use comeback.Blob.Score.{Score, IsScore, hex}
use comeback.Blob.Gcs.{Object, make_name}
use comeback.Blob.Listing.{Lister}
use comeback.Blob.Listing.Complete.{ListLaws}
use comeback.Gc.{blob_prefix}
use comeback.Util.StringSet.{StringSet, new_string_set, contains, add, contains-add}
use comeback.Verify.Resolver.{has_score}
use comeback.Verify.Scores.{
  list_all_scores, list_all_scores-has_score, Mem-has_score, has_score-Mem,
}
use comeback.State.{add_scores, build_existing_scores}

contains-empty : (str : Bytes) → contains str new_string_set ≢ true
unfolding contains
contains-empty str h = cc

add_scores-keeps :
    (ss : List Score) (set : StringSet) (str : Bytes)
    → contains str set ≡ true
    → contains str (add_scores ss set) ≡ true
unfolding add_scores
add_scores-keeps [] set str h = h
add_scores-keeps (s ∷ ss) set str h =
    add_scores-keeps ss (add (hex s) set) str (ground (arith, contains-add (hex s) str set))

add_scores-Mem :
    (ss : List Score) (set : StringSet) (s : Score)
    → Memᴰ s ss
    → contains (hex s) (add_scores ss set) ≡ true
unfolding add_scores
add_scores-Mem [] set s m = absurd (Memᴰ.not-nil m)
add_scores-Mem (t ∷ ss) set s m = elim (Memᴰ.cases_cons m) [
  | inl p ↦
      add_scores-keeps ss (add (hex t) set) (hex s)
        (ground (arith, p, contains-add (hex t) (hex s) set, eq_bytes_self (hex s)))
  | inr n ↦ add_scores-Mem ss (add (hex t) set) s n
]

contains-add_scores :
    (ss : List Score) (set : StringSet) (str : Bytes)
    → contains str (add_scores ss set) ≡ true
    → (contains str set ≡ true) ⊎ ((s : Score) × Memᴰ s ss × (str ≡ hex s))
unfolding add_scores
contains-add_scores [] set str h = inl h
contains-add_scores (t ∷ ss) set str h = elim (contains-add_scores ss (add (hex t) set) str h) [
  | inl k ↦ elim (Bool-cases (eq_bytes (hex t) str)) [
    | inl e ↦ inr (t, Memᴰ.head refl, sym (eq_of_eq_bytes (hex t) str e))
    | inr e ↦ inl (ground (arith, contains-add (hex t) str set))
  ]
  | inr (s, m, e) ↦ inr (s, Memᴰ.tail m, e)
]

module _ {B : Type 0} {lister : Lister B} (laws : ListLaws lister) where
  -- A string names the blob of an object of the bucket.
  abbrev pub Names : B → Bytes → Type 0
  Names b str =
      (s : Score) × IsScore s
      × (str ≡ hex s)
      × ((o : Object) × Memᴰ o (laws.records b) × (o.name ≡ make_name blob_prefix s))

  pub build_existing_scores-Names :
      (b : B) (set : StringSet) (str : Bytes)
      → build_existing_scores lister b ≡ ok set
      → (contains str set ≡ true) ↔ Names b str
  unfolding build_existing_scores
  build_existing_scores-Names b set str h =
      let (ss, g, e) = >>=-passes (within "listAllScores" _) _ h in
      let same : add_scores ss new_string_set ≡ set = ground arith in
      (
        λ k. names ss g (contains-add_scores ss new_string_set str (subst Has (sym same) k)),
        λ (t, u, p, found). subst Has same (
            subst (λ (r : Bytes). contains r (add_scores ss new_string_set) ≡ true) (sym p)
              (add_scores-Mem ss new_string_set t
                (Mem-has_score t ss ((listed ss g t).1 (u, found))))),
      )
    where
      Has : StringSet → Type 0
      Has st = contains str st ≡ true

      listed :
          (ss : List Score)
          → within "listAllScores" (list_all_scores lister blob_prefix b) ≡ ok ss
          → (t : Score)
          → (has_score t ss ≡ true) ↔ (
              IsScore t
              × ((o : Object) × Memᴰ o (laws.records b) × (o.name ≡ make_name blob_prefix t)))
      listed ss g t =
          list_all_scores-has_score laws blob_prefix b ss (within-eq-ok "listAllScores" _ g) t

      names :
          (ss : List Score)
          → within "listAllScores" (list_all_scores lister blob_prefix b) ≡ ok ss
          → (contains str new_string_set ≡ true) ⊎ ((t : Score) × Memᴰ t ss × (str ≡ hex t))
          → Names b str
      names ss g (inl k) = absurd (contains-empty str k)
      names ss g (inr (t, m, p)) =
          let (u, found) = (listed ss g t).0 (has_score-Mem t ss m) in (t, u, p, found)
