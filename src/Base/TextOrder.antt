-- ===== src/Base/TextOrder.antt =====
-- The order of texts is a strict weak order.
use Prim.Native.Nat.{ℕ, Ordering, compare as compare_nat}
use Prim.Native.Char.{Char, code}
use Prim.Native.String.{String, [], ◌∷◌, compare, then}
use Prim.Native.String.compare
use mathlib.Core.Path.{◌≡◌, refl, sym, ◌∙◌, ap}
use mathlib.Core.Bool.{true, false, ◌&&◌, ◌||◌}
use native.Mathlib.Omega.{arith}
use text.Mathlib.Text.{is_lt}
use air_cover.Base.Tests.{ltb, nat_beq}
use air_cover.Base.Text.{str_ltb}

is_lt-then :
    (a b : ℕ) (o : Ordering)
    → is_lt (then (compare_nat a b) o) ≡ (ltb a b || (nat_beq a b && is_lt o))
is_lt-then a b o = go (compare_nat a b)
  where
    go :
        (r : Ordering)
        → is_lt (then r o) ≡ (
            (elim r [ Ordering.lt ↦ true | _ ↦ false ])
            || ((elim r [ Ordering.eq ↦ true | _ ↦ false ]) && is_lt o))
    go Ordering.lt = refl
    go Ordering.eq = refl
    go Ordering.gt = refl

str_ltb-cons :
    (c d : Char) (s t : String)
    → str_ltb (c ∷ s) (d ∷ t)
      ≡ (ltb (code c) (code d) || (nat_beq (code c) (code d) && str_ltb s t))
str_ltb-cons c d s t =
    ap is_lt (compare.cons-cons c d s t) ∙ is_lt-then (code c) (code d) (compare s t)

str_ltb-nil : (s : String) → str_ltb s [] ≡ false
str_ltb-nil [] = ap is_lt compare.nil-nil
str_ltb-nil (c ∷ s) = ap is_lt (compare.cons-nil c s)

str_ltb-nil_cons : (c : Char) (s : String) → str_ltb [] (c ∷ s) ≡ true
str_ltb-nil_cons c s = ap is_lt (compare.nil-cons c s)

pub str_ltb-asym : (s t : String) → str_ltb s t ≡ true → str_ltb t s ≡ false
str_ltb-asym s [] h = let bad : true ≡ false = sym h ∙ str_ltb-nil s in cc bad
str_ltb-asym [] (d ∷ t) h = str_ltb-nil (d ∷ t)
str_ltb-asym (c ∷ s) (d ∷ t) h =
    rw (str_ltb-cons d c t s) (ground (arith, str_ltb-asym s t, sym (str_ltb-cons c d s t) ∙ h))

pub str_ltb-cotrans :
    (s t u : String) → str_ltb t s ≡ false → str_ltb u t ≡ false → str_ltb u s ≡ false
str_ltb-cotrans [] t u ht hu = str_ltb-nil u
str_ltb-cotrans (c ∷ s) [] u ht hu =
    let bad : true ≡ false = sym (str_ltb-nil_cons c s) ∙ ht in cc bad
str_ltb-cotrans (c ∷ s) (d ∷ t) [] ht hu =
    let bad : true ≡ false = sym (str_ltb-nil_cons d t) ∙ hu in cc bad
str_ltb-cotrans (c ∷ s) (d ∷ t) (e ∷ u) ht hu = rw (str_ltb-cons e c u s) (
    ground (
      arith,
      str_ltb-cotrans s t u,
      sym (str_ltb-cons d c t s) ∙ ht,
      sym (str_ltb-cons e d u t) ∙ hu,
    ))
