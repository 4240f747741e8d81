-- ===== src/Util/StringSet.antt =====
-- internal/util/string_set.go: a growing set of strings. The lock makes each method one step.
use comeback.Prelude.{◌≡◌, Bool, true, false, ◌||◌, List, [], ◌∷◌, arith, if◌then◌else◌, refl}
use comeback.Prelude.Go.{Bytes, Result, ok, within, ◌>>=◌, eq_bytes, eq_bytes_self, eq_of_eq_bytes}

-- The keys of the map `elems`; all its values are true.
pub record StringSet : Type 0 where
  pub elems : List Bytes

abbrev pub new_string_set : StringSet
new_string_set = record { elems = [] }

-- _, ok := m[str]
abbrev has_key : Bytes → List Bytes → Bool
has_key str [] = false
has_key str (x ∷ xs) = eq_bytes x str || has_key str xs

unfoldable pub contains : Bytes → StringSet → Bool
contains str s = has_key str s.elems

abbrev put : Bytes → List Bytes → List Bytes
put str xs = if has_key str xs then xs else str ∷ xs

unfoldable pub add : Bytes → StringSet → StringSet
add str s = record { elems = put str s.elems }

pub contains-add_self : (a : Bytes) (s : StringSet) → contains a (add a s) ≡ true
unfolding contains add
contains-add_self a s = ground (arith, eq_bytes_self a)

-- A string is in the set after `Add` if it was before, or if it is the one that was added.
pub contains-add :
    (a b : Bytes) (s : StringSet) → contains b (add a s) ≡ (eq_bytes a b || contains b s)
unfolding contains add
contains-add a b s = ground (arith, eq_of_eq_bytes a b)

-- Go's encoding/gob for a list of strings.
pub record Gob : Type 0 where
  pub encode : List Bytes → Result Bytes
  pub decode : Bytes → Result (List Bytes)

unfoldable pub gob_encode : Gob → StringSet → Result Bytes
gob_encode g s = within "Encoding list" (g.encode s.elems)

abbrev put_all : List Bytes → List Bytes → List Bytes
put_all [] xs = xs
put_all (e ∷ es) xs = put_all es (put e xs)

-- The set that the receiver is overwritten with.
unfoldable pub gob_decode : Gob → Bytes → Result StringSet
gob_decode g b = do
  elems ← within "Decoding list" (g.decode b)
  ok (record { elems = put_all elems [] })

has_key-put :
    (a b : Bytes) (xs : List Bytes) → has_key b (put a xs) ≡ (eq_bytes a b || has_key b xs)
has_key-put a b xs = ground (arith, eq_of_eq_bytes a b)

has_key-put_all :
    (b : Bytes) (es xs : List Bytes) → has_key b (put_all es xs) ≡ (has_key b es || has_key b xs)
has_key-put_all b [] xs = refl
has_key-put_all b (e ∷ es) xs = ground (arith, has_key-put_all b es (put e xs), has_key-put e b xs)

-- A set that is encoded is decoded to a set of the same strings, if gob reads back the lists that
-- it has written.
pub gob_round_trip :
    (g : Gob) (s : StringSet) (d : Bytes)
    → ((l : List Bytes) (e : Bytes) → g.encode l ≡ ok e → g.decode e ≡ ok l)
    → gob_encode g s ≡ ok d
    → (t : StringSet) × (gob_decode g d ≡ ok t) × ((b : Bytes) → contains b t ≡ contains b s)
unfolding gob_encode gob_decode contains
gob_round_trip g s d law h = (
  record { elems = put_all s.elems [] },
  ground (arith, law s.elems d),
  λ b. ground (arith, has_key-put_all b s.elems []),
)
