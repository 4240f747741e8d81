-- ===== src/Blob/Listing/Complete.antt =====
-- internal/blob/gcs_store.go: which scores the listing of the blobs finds.
use mathlib.Core.Path.{subst}
use mathlib.Core.List.{Memᴰ}
use mathlib.Core.List.Memᴰ
use comeback.Prelude.{
  Option, suc, ℕ, ◌≡◌, refl, sym, ap, ◌∙◌, true, List, [], ◌∷◌, ◌++◌, ◌<◌, ◌/◌, arith, inl, inr,
  Bool, false, ◌==◌, ◌||◌, Bool-cases,
}
use comeback.Prelude.Go.{
  Error, Bytes, ok, within, >>=-passes, within-eq-ok, has_prefix, drop_prefix, drop_prefix-append,
}
use comeback.Blob.Hex.{digit, encode}
use comeback.Blob.Score.{Score, IsScore, hex}
use comeback.Blob.Gcs.{Object, make_name}
use comeback.Blob.ObjectRecord.{parse_object_record, parse_object_record_sound}
use comeback.Blob.Stack.Saving.{hex_injective}
use comeback.Blob.Listing.{
  Lister, send_on, hex_digit_codes, list_digits, parse_objects, list_scores,
}

-- What is documented of the listing: it gives the objects whose names have the prefix.
pub record ListLaws {B : Type 0} (lister : Lister B) : Type 0 where
  pub records : B → List Object
  pub lists :
      (prefix : Bytes) (b : B) (os : List Object) (o : Object)
      → lister.list_prefix prefix b ≡ ok os
      → Memᴰ o (records b)
      → has_prefix o.name prefix ≡ true
      → Memᴰ o os
  pub listed :
      (prefix : Bytes) (b : B) (os : List Object) (o : Object)
      → lister.list_prefix prefix b ≡ ok os
      → Memᴰ o os
      → Memᴰ o (records b)

has_prefix-next :
    (prefix rest : Bytes) (c : ℕ) → has_prefix (prefix ++ c ∷ rest) (prefix ++ c ∷ []) ≡ true
has_prefix-next [] rest c = ground arith
has_prefix-next (p ∷ ps) rest c = ground (arith, has_prefix-next ps rest c)

-- Whether a byte is in a string.
abbrev has_byte : ℕ → Bytes → Bool
has_byte c [] = false
has_byte c (d ∷ ds) = c == d || has_byte c ds

has_byte-Mem : (c : ℕ) (ds : Bytes) → has_byte c ds ≡ true → Memᴰ c ds
has_byte-Mem c [] h = cc
has_byte-Mem c (d ∷ ds) h = elim (Bool-cases (c == d)) [
  | inl e ↦ Memᴰ.head (ground arith)
  | inr e ↦ Memᴰ.tail (has_byte-Mem c ds (ground arith))
]

digit-has_byte : (d : ℕ) → d < 16 → has_byte (digit d) hex_digit_codes ≡ true
digit-has_byte d h = ground arith

digit-listed : (d : ℕ) → d < 16 → Memᴰ (digit d) hex_digit_codes
digit-listed d h = has_byte-Mem (digit d) hex_digit_codes (digit-has_byte d h)

-- The name of a blob goes on from the prefix with one of the digits.
first_digit :
    (s : Score) → IsScore s → (c : ℕ) × (rest : Bytes) × (hex s ≡ c ∷ rest) × Memᴰ c hex_digit_codes
unfolding hex encode
first_digit [] h = absurd (omega (arith, h.0))
first_digit (b ∷ bs) h = (digit (b / 16), _, refl, digit-listed (b / 16) (omega (arith, h.1.0)))

same_hex : (prefix : Bytes) (s t : Score) → prefix ++ hex s ≡ prefix ++ hex t → hex s ≡ hex t
same_hex prefix s t e =
    sym (drop_prefix-append prefix (hex s))
    ∙ ap (λ (n : Bytes). drop_prefix n prefix) e
    ∙ drop_prefix-append prefix (hex t)

module _ (ctx_err : ℕ → Option Error) (prefix : Bytes) where
  -- Each object that is listed is read, as one of the scores.
  parse_objects-each :
      (sent : ℕ) (os : List Object) (ss : List Score) (o : Object)
      → parse_objects ctx_err sent os prefix ≡ ok ss
      → Memᴰ o os
      → (s : Score) × Memᴰ s ss × (parse_object_record o prefix ≡ ok s)
  unfolding parse_objects
  parse_objects-each sent [] ss o h m = absurd (Memᴰ.not-nil m)
  parse_objects-each sent (x ∷ os) ss o h m =
      let (s, g, h1) = >>=-passes (within "ParseObjectRecord" (parse_object_record x prefix)) _ h in
      let (_, _, h2) = >>=-passes (send_on (ctx_err sent)) _ h1 in
      let (rest, k, e) = >>=-passes (parse_objects ctx_err (suc sent) os prefix) _ h2 in
      let same : s ∷ rest ≡ ss = ground arith in
      elim (Memᴰ.cases_cons m) [
        | inl p ↦ (
          s,
          subst (Memᴰ s) same (Memᴰ.head refl),
          ap (λ (y : Object). parse_object_record y prefix) p ∙ within-eq-ok _ _ g,
        )
        | inr n ↦
            let (t, found, parsed) = parse_objects-each (suc sent) os rest o k n in
            (t, subst (Memᴰ t) same (Memᴰ.tail found), parsed)
      ]

  parse_objects-only :
      (sent : ℕ) (os : List Object) (ss : List Score) (s : Score)
      → parse_objects ctx_err sent os prefix ≡ ok ss
      → Memᴰ s ss
      → (o : Object) × Memᴰ o os × (parse_object_record o prefix ≡ ok s)
  unfolding parse_objects
  parse_objects-only sent [] ss s h m =
      let e : ss ≡ [] = ground arith in absurd (Memᴰ.not-nil (subst (Memᴰ s) e m))
  parse_objects-only sent (x ∷ os) ss s h m =
      let (t, g, h1) = >>=-passes (within "ParseObjectRecord" (parse_object_record x prefix)) _ h in
      let (_, _, h2) = >>=-passes (send_on (ctx_err sent)) _ h1 in
      let (rest, k, e) = >>=-passes (parse_objects ctx_err (suc sent) os prefix) _ h2 in
      let same : ss ≡ t ∷ rest = ground arith in
      elim (Memᴰ.cases_cons (subst (Memᴰ s) same m)) [
        | inl p ↦ (x, Memᴰ.head refl, within-eq-ok _ _ g ∙ ap ok (sym p))
        | inr n ↦
            let (o, found, parsed) = parse_objects-only (suc sent) os rest s k n in
            (o, Memᴰ.tail found, parsed)
      ]

module _ {B : Type 0} {lister : Lister B} (laws : ListLaws lister) (prefix : Bytes) where
  list_digits-lists :
      (ds : Bytes) (b : B) (os : List Object) (o : Object) (c : ℕ) (rest : Bytes)
      → list_digits lister prefix ds b ≡ ok os
      → Memᴰ c ds
      → Memᴰ o (laws.records b)
      → o.name ≡ prefix ++ c ∷ rest
      → Memᴰ o os
  unfolding list_digits
  list_digits-lists [] b os o c rest h d m e = absurd (Memᴰ.not-nil d)
  list_digits-lists (x ∷ ds) b os o c rest h d m e =
      let (first, g, h1) = >>=-passes (lister.list_prefix (prefix ++ x ∷ []) b) _ h in
      let (more, k, e') = >>=-passes (list_digits lister prefix ds b) _ h1 in
      let same : first ++ more ≡ os = ground arith in
      elim (Memᴰ.cases_cons d) [
        | inl p ↦
            let named : has_prefix o.name (prefix ++ x ∷ []) ≡ true =
              rw (e, ← p) (has_prefix-next prefix rest c) in
            rw (← same) (Memᴰ.append_left more (laws.lists (prefix ++ x ∷ []) b first o g m named))
        | inr n ↦
            rw (← same) (Memᴰ.append_right first (list_digits-lists ds b more o c rest k n m e))
      ]

  list_digits-listed :
      (ds : Bytes) (b : B) (os : List Object) (o : Object)
      → list_digits lister prefix ds b ≡ ok os
      → Memᴰ o os
      → Memᴰ o (laws.records b)
  unfolding list_digits
  list_digits-listed [] b os o h m =
      let e : os ≡ [] = ground arith in absurd (Memᴰ.not-nil (subst (Memᴰ o) e m))
  list_digits-listed (x ∷ ds) b os o h m =
      let (first, g, h1) = >>=-passes (lister.list_prefix (prefix ++ x ∷ []) b) _ h in
      let (more, k, e') = >>=-passes (list_digits lister prefix ds b) _ h1 in
      let same : os ≡ first ++ more = ground arith in
      elim (Memᴰ.append_cases first (subst (Memᴰ o) same m)) [
        | inl n ↦ laws.listed (prefix ++ x ∷ []) b first o g n
        | inr n ↦ list_digits-listed ds b more o k n
      ]

  -- The scores that are listed are those of the bucket's objects with the names of blobs.
  pub list_scores-finds :
      (b : B) (ss : List Score) (o : Object) (s : Score)
      → list_scores lister prefix b ≡ ok ss
      → Memᴰ o (laws.records b)
      → IsScore s
      → o.name ≡ make_name prefix s
      → Memᴰ s ss
  unfolding list_scores make_name
  list_scores-finds b ss o s h m u e =
      let (os, g, parsed) = >>=-passes (within "ListBlobObjects" _) _ h in
      let (c, rest, p, d) = first_digit s u in
      let found =
        list_digits-lists hex_digit_codes b os o c rest (within-eq-ok _ _ g) d m
          (e ∙ ap (λ (t : Bytes). prefix ++ t) p) in
      let (t, n, read) = parse_objects-each lister.ctx_err prefix 0 os ss o parsed found in
      let (named, v, _, _) = parse_object_record_sound o prefix t read in
      Memᴰ.cast (hex_injective s t u v (same_hex prefix s t (sym e ∙ named))) n

  pub list_scores-found :
      (b : B) (ss : List Score) (s : Score)
      → list_scores lister prefix b ≡ ok ss
      → Memᴰ s ss
      → IsScore s × ((o : Object) × Memᴰ o (laws.records b) × (o.name ≡ make_name prefix s))
  unfolding list_scores make_name
  list_scores-found b ss s h m =
      let (os, g, parsed) = >>=-passes (within "ListBlobObjects" _) _ h in
      let (o, found, read) = parse_objects-only lister.ctx_err prefix 0 os ss s parsed m in
      let (named, v, _, _) = parse_object_record_sound o prefix s read in
      (v, (o, list_digits-listed hex_digit_codes b os o (within-eq-ok _ _ g) found, named))
