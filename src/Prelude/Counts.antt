-- ===== src/Prelude/Counts.antt =====
-- How often an element stands in a list, by the native numbers.
use Prim.Native.Nat.{ℕ, ◌+◌, ◌<◌}
use mathlib.Core.Path.{◌≡◌}
use mathlib.Core.Logic.{ite}
use mathlib.Core.List.{List, [], ◌∷◌, ◌++◌}
use comeback.Prelude.Lists.{All}
use native.Mathlib.Omega.{arith}

module _ {ℓ} {A : Type ℓ} (eq : Discrete A) where
  -- One where the two are the same, and zero elsewhere.
  abbrev pub same : A → A → ℕ
  same a b = ite (eq a b) 1 0

  abbrev pub count : A → List A → ℕ
  count a [] = 0
  count a (x ∷ xs) = same a x + count a xs

  pub count-append : (a : A) (xs ys : List A) → count a (xs ++ ys) ≡ count a xs + count a ys
  count-append a [] ys = omega arith
  count-append a (x ∷ xs) ys = omega (arith, count-append a xs ys)

  pub same_self : (a : A) → same a a ≡ 1
  same_self a = ground arith

  -- Taking the element at a position out of a list.
  pub count-middle :
      (a n : A) (xs ys : List A) → count a (xs ++ n ∷ ys) ≡ same a n + count a (xs ++ ys)
  count-middle a n xs ys = omega (arith, count-append a xs (n ∷ ys), count-append a xs ys)

  -- What holds of everything that is counted holds of every element.
  pub All-of_count {κ} :
      (P : A → Type κ) (xs : List A) → ((a : A) → 0 < count a xs → P a) → All P xs
  All-of_count P [] h = tt
  All-of_count P (x ∷ xs) h = (h x (ground arith), All-of_count P xs (λ a m. h a (omega arith)))
