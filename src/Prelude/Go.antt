-- ===== src/Prelude/Go.antt =====
-- Go's errors, results and byte strings.
use Prim.Native.Nat.{ℕ}
use Prim.Native.Char.{code}
use Prim.Native.String.{String}
use mathlib.Core.Path.{◌≡◌, refl}
use mathlib.Core.Bool.{Bool, true, false, ◌&&◌}
use mathlib.Core.List.{List, [], ◌∷◌, ◌++◌}
use native.Mathlib.Omega.{arith}
use comeback.Prelude.Tests.{◌==◌}

-- A `string` or a `[]byte`: its bytes.
abbrev pub Bytes : Type 0
Bytes = List ℕ

-- The bytes of an ASCII literal.
abbrev pub codes : String → Bytes
codes String.[] = []
codes (String.◌∷◌ c s) = code c ∷ codes s

-- An error: one from outside the program, one made here by its message, or one wrapped by
-- `fmt.Errorf("...: %v", err)`.
pub data Error : Type 0 where
  outside : ℕ → Error
  message : String → Error
  wrap : String → Error → Error

-- What a call gives: its values with a nil error, an error, or a panic.
pub data Result {ℓ} (A : Type ℓ) : Type ℓ where
  ok : A → Result A
  err : Error → Result A
  panic : Result A

infixl 5 ◌>>=◌
-- The next call, unless there was an error or a panic.
abbrev pub ◌>>=◌ {ℓ κ} : {X : Type ℓ} {Y : Type κ} → Result X → (X → Result Y) → Result Y
panic >>= next = panic
err e >>= next = err e
ok x >>= next = next x

-- `if err != nil { err = fmt.Errorf("c: %v", err); return }`
abbrev pub within {ℓ} : {A : Type ℓ} → String → Result A → Result A
within c (ok a) = ok a
within c (err e) = err (wrap c e)
within c panic = panic

-- s == t
abbrev pub eq_bytes : Bytes → Bytes → Bool
eq_bytes [] [] = true
eq_bytes (a ∷ s) (b ∷ t) = a == b && eq_bytes s t
eq_bytes _ _ = false

pub eq_bytes_self : (s : Bytes) → eq_bytes s s ≡ true
eq_bytes_self [] = refl
eq_bytes_self (a ∷ s) = ground (arith, eq_bytes_self s)

pub eq_of_eq_bytes : (s t : Bytes) → eq_bytes s t ≡ true → s ≡ t
eq_of_eq_bytes [] [] h = refl
eq_of_eq_bytes [] (b ∷ t) h = cc
eq_of_eq_bytes (a ∷ s) [] h = cc
eq_of_eq_bytes (a ∷ s) (b ∷ t) h = ground (arith, eq_of_eq_bytes s t)

-- strings.HasPrefix with strings.TrimPrefix: the rest after the prefix.
abbrev pub has_prefix : (s prefix : Bytes) → Bool
has_prefix s [] = true
has_prefix [] (p ∷ ps) = false
has_prefix (c ∷ s) (p ∷ ps) = c == p && has_prefix s ps

abbrev pub drop_prefix : (s prefix : Bytes) → Bytes
drop_prefix s [] = s
drop_prefix [] (p ∷ ps) = []
drop_prefix (c ∷ s) (p ∷ ps) = drop_prefix s ps

pub has_prefix-append : (ps s : Bytes) → has_prefix (ps ++ s) ps ≡ true
has_prefix-append [] s = refl
has_prefix-append (p ∷ ps) s = ground (arith, has_prefix-append ps s)

pub drop_prefix-append : (ps s : Bytes) → drop_prefix (ps ++ s) ps ≡ s
drop_prefix-append [] s = refl
drop_prefix-append (p ∷ ps) s = drop_prefix-append ps s

-- The other way round.
pub append-drop_prefix : (ps s : Bytes) → has_prefix s ps ≡ true → ps ++ drop_prefix s ps ≡ s
append-drop_prefix [] s h = refl
append-drop_prefix (p ∷ ps) [] h = cc
append-drop_prefix (p ∷ ps) (c ∷ s) h = ground (arith, append-drop_prefix ps s)

-- What a chain that succeeds has gone through.
pub >>=-passes {ℓ κ} :
    {X : Type ℓ} {Y : Type κ} {last : Y} (first : Result X) (next : X → Result Y)
    → first >>= next ≡ ok last
    → (x : X) × (first ≡ ok x) × (next x ≡ ok last)
>>=-passes panic next e = cc
>>=-passes (err x) next e = cc
>>=-passes (ok x) next e = (x, refl, e)

pub within-eq-ok {ℓ} :
    {A : Type ℓ} (c : String) (m : Result A) {a : A} → within c m ≡ ok a → m ≡ ok a
within-eq-ok c (ok a) h = h
within-eq-ok c (err e) h = cc
within-eq-ok c panic h = cc
