-- ===== src/Prelude/Effects.antt =====
-- Calls with an effect on a state outside of the program, and the early return after an error.
use Prim.Native.String.{String}
use mathlib.Core.Path.{◌≡◌, refl, sym, ap, ◌∙◌}
use comeback.Prelude.Go.{Result, ok, err, panic, within}

abbrev pub Effect : Type 0 → Type 0
Effect F = F → Result (Unit {0}) × F

-- `if err != nil { err = fmt.Errorf(...); return }` after a call, and what follows.
abbrev pub go_on : {F : Type 0} → String → Result (Unit {0}) × F → Effect F → Result (Unit {0}) × F
go_on c (ok _, f) next = next f
go_on c (err e, f) next = (within c (err e), f)
go_on c (panic, f) next = (panic, f)

-- `if err != nil { return }` with the error as it is.
abbrev pub or_return : {F : Type 0} → Result (Unit {0}) × F → Effect F → Result (Unit {0}) × F
or_return (ok _, f) next = next f
or_return (err e, f) next = (err e, f)
or_return (panic, f) next = (panic, f)

abbrev pub done : {F : Type 0} → Effect F
done f = (ok tt, f)

module _ {F : Type 0} where
  pub go_on-passes :
      (c : String) (x : Result (Unit {0}) × F) (next : Effect F)
      → (go_on c x next).0 ≡ ok tt
      → (x.0 ≡ ok tt) × (go_on c x next ≡ next x.1)
  go_on-passes c (ok u, f) next h = (refl, refl)
  go_on-passes c (err e, f) next h = cc
  go_on-passes c (panic, f) next h = cc

  pub or_return-passes :
      (x : Result (Unit {0}) × F) (next : Effect F)
      → (or_return x next).0 ≡ ok tt
      → (x.0 ≡ ok tt) × (or_return x next ≡ next x.1)
  or_return-passes (ok u, f) next h = (refl, refl)
  or_return-passes (err e, f) next h = cc
  or_return-passes (panic, f) next h = cc

  pub still_ok : {x y : Result (Unit {0}) × F} → x ≡ y → x.0 ≡ ok tt → y.0 ≡ ok tt
  still_ok e h = sym (ap (λ (z : Result (Unit {0}) × F). z.0) e) ∙ h
