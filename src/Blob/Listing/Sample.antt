-- ===== src/Blob/Listing/Sample.antt =====
-- The listing of a bucket that is a list of records.
use mathlib.Core.Path.{subst}
use mathlib.Core.List.{Memᴰ}
use mathlib.Core.List.Memᴰ
use comeback.Prelude.{
  none, ◌≡◌, sym, true, false, List, [], ◌∷◌, if◌then◌else◌, Bool-cases, inl, inr, arith,
}
use comeback.Prelude.Go.{Bytes, ok, has_prefix}
use comeback.Blob.Gcs.{Object}
use comeback.Blob.Listing.{Lister}
use comeback.Blob.Listing.Complete.{ListLaws}

abbrev pub with_prefix : Bytes → List Object → List Object
with_prefix prefix [] = []
with_prefix prefix (o ∷ os) =
    let rest = with_prefix prefix os in if has_prefix o.name prefix then o ∷ rest else rest

abbrev pub lister : Lister (List Object)
lister = record { list_prefix = λ prefix os. ok (with_prefix prefix os); ctx_err = λ n. none }

kept :
    (prefix : Bytes) (x : Object) (b : List Object)
    → has_prefix x.name prefix ≡ true
    → with_prefix prefix (x ∷ b) ≡ x ∷ with_prefix prefix b
kept prefix x b e = ground (arith, e)

left_out :
    (prefix : Bytes) (x : Object) (b : List Object)
    → has_prefix x.name prefix ≡ false
    → with_prefix prefix (x ∷ b) ≡ with_prefix prefix b
left_out prefix x b e = ground (arith, e)

later :
    (prefix : Bytes) (x : Object) (b : List Object) (o : Object)
    → Memᴰ o (with_prefix prefix b)
    → Memᴰ o (with_prefix prefix (x ∷ b))
later prefix x b o m = elim (Bool-cases (has_prefix x.name prefix)) [
  | inl e ↦ subst (Memᴰ o) (sym (kept prefix x b e)) (Memᴰ.tail m)
  | inr e ↦ subst (Memᴰ o) (sym (left_out prefix x b e)) m
]

with_prefix-lists :
    (prefix : Bytes) (b : List Object) (o : Object)
    → Memᴰ o b
    → has_prefix o.name prefix ≡ true
    → Memᴰ o (with_prefix prefix b)
with_prefix-lists prefix [] o m h = absurd (Memᴰ.not-nil m)
with_prefix-lists prefix (x ∷ b) o m h = elim (Memᴰ.cases_cons m) [
  | inl p ↦
      let e : has_prefix x.name prefix ≡ true =
        subst (λ (y : Object). has_prefix y.name prefix ≡ true) p h in
      subst (Memᴰ o) (sym (kept prefix x b e)) (Memᴰ.head p)
  | inr n ↦ later prefix x b o (with_prefix-lists prefix b o n h)
]

with_prefix-listed :
    (prefix : Bytes) (b : List Object) (o : Object) → Memᴰ o (with_prefix prefix b) → Memᴰ o b
with_prefix-listed prefix [] o m = m
with_prefix-listed prefix (x ∷ b) o m = elim (Bool-cases (has_prefix x.name prefix)) [
  | inl e ↦ elim (Memᴰ.cases_cons (subst (Memᴰ o) (kept prefix x b e) m)) [
    | inl p ↦ Memᴰ.head p
    | inr n ↦ Memᴰ.tail (with_prefix-listed prefix b o n)
  ]
  | inr e ↦ Memᴰ.tail (with_prefix-listed prefix b o (subst (Memᴰ o) (left_out prefix x b e) m))
]

ok_injective : (xs ys : List Object) → ok xs ≡ ok ys → xs ≡ ys
ok_injective xs ys e = ground arith

pub list_laws : ListLaws lister
list_laws = record {
  records = λ b. b;
  lists = λ prefix b os o e m h.
      subst (Memᴰ o) (ok_injective (with_prefix prefix b) os e) (with_prefix-lists prefix b o m h);
  listed = λ prefix b os o e m.
      with_prefix-listed prefix b o
        (subst (Memᴰ o) (sym (ok_injective (with_prefix prefix b) os e)) m);
}
