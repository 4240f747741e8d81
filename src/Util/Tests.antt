-- ===== src/Util/Tests.antt =====
-- A set of strings through an encoding of lists in which a 0 ends each string.
use comeback.Prelude.{ℕ, zero, suc, ◌≡◌, refl, ap, List, [], ◌∷◌, arith}
use comeback.Prelude.Go.{Bytes, codes, ok}
use comeback.Util.StringSet.{StringSet, Gob, gob_encode}

abbrev ended : Bytes → Bytes → Bytes
ended [] rest = 0 ∷ rest
ended (c ∷ s) rest = suc c ∷ ended s rest

abbrev flatten : List Bytes → Bytes
flatten [] = []
flatten (s ∷ ss) = ended s (flatten ss)

abbrev cons_first : ℕ → List Bytes → List Bytes
cons_first c [] = (c ∷ []) ∷ []
cons_first c (s ∷ ss) = (c ∷ s) ∷ ss

abbrev strings : Bytes → List Bytes
strings [] = []
strings (zero ∷ b) = [] ∷ strings b
strings (suc c ∷ b) = cons_first c (strings b)

strings-ended : (s b : Bytes) → strings (ended s b) ≡ s ∷ strings b
strings-ended [] b = refl
strings-ended (c ∷ s) b = ap (cons_first c) (strings-ended s b)

strings-flatten : (l : List Bytes) → strings (flatten l) ≡ l
strings-flatten [] = refl
strings-flatten (s ∷ ss) = ground (arith, strings-ended s (flatten ss), strings-flatten ss)

abbrev gob : Gob
gob = record { encode = λ l. ok (flatten l); decode = λ b. ok (strings b) }

gob_law : (l : List Bytes) (e : Bytes) → gob.encode l ≡ ok e → gob.decode e ≡ ok l
gob_law l e h = ground (arith, strings-flatten l)

abbrev two_strings : StringSet
two_strings = record { elems = codes "ab" ∷ codes "c" ∷ [] }

encoded : gob_encode gob two_strings ≡ ok (flatten (codes "ab" ∷ codes "c" ∷ []))
unfolding gob_encode
encoded = refl
