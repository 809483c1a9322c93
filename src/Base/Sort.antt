-- ===== src/Base/Sort.antt =====
-- `sort.Slice`. Go leaves the order of elements that compare equal open; the model is its insertion
-- sort, which is what it runs on slices of at most twelve elements.
use mathlib.Core.Path.{◌≡◌}
use mathlib.Core.Bool.{Bool, true, false}
use mathlib.Core.List.{List, [], ◌∷◌}
use mathlib.Core.List.{Perm}
use mathlib.Core.List.Perm
use mathlib.Core.Logic.{inl, inr}
use air_cover.Base.Tests.{if◌then◌else◌, Bool-cases}
use air_cover.Base.Lists.{All, All-map_of}

module _ {A : Type 0} (less : A → A → Bool) where
  unfoldable pub insert_by : A → List A → List A
  insert_by a [] = a ∷ []
  insert_by a (x ∷ xs) = let rest = insert_by a xs in if less x a then x ∷ rest else a ∷ x ∷ xs

  unfoldable pub sort_by : List A → List A
  unfolding insert_by
  sort_by [] = []
  sort_by (x ∷ xs) = insert_by x (sort_by xs)

  -- No later element is below an earlier one.
  abbrev pub IsOrdered : List A → Type 0
  IsOrdered [] = Unit
  IsOrdered (x ∷ xs) = All (λ y. less y x ≡ false) xs × IsOrdered xs

  pub insert_by-perm : (a : A) (xs : List A) → Perm (insert_by a xs) (a ∷ xs)
  unfolding insert_by
  insert_by-perm a [] = Perm.refl (a ∷ [])
  insert_by-perm a (x ∷ xs) = elim (Bool-cases (less x a)) [
    | inl e ↦ rw e (Perm.trans (Perm.cons x (insert_by-perm a xs)) (Perm.swap a x xs))
    | inr e ↦ rw e (Perm.refl (a ∷ x ∷ xs))
  ]

  pub sort_by-perm : (xs : List A) → Perm (sort_by xs) xs
  unfolding sort_by
  sort_by-perm [] = Perm.refl []
  sort_by-perm (x ∷ xs) = Perm.trans (insert_by-perm x (sort_by xs)) (Perm.cons x (sort_by-perm xs))

  All-insert_by : (P : A → Type 0) (a : A) (xs : List A) → P a → All P xs → All P (insert_by a xs)
  unfolding insert_by
  All-insert_by P a [] pa h = (pa, tt)
  All-insert_by P a (x ∷ xs) pa h = elim (Bool-cases (less x a)) [
    | inl e ↦ rw e (h.0, All-insert_by P a xs pa h.1)
    | inr e ↦ rw e (pa, h)
  ]

  module _ (asym : (a b : A) → less a b ≡ true → less b a ≡ false)
      (cotrans : (a b c : A) → less b a ≡ false → less c b ≡ false → less c a ≡ false) where
    insert_by-IsOrdered : (a : A) (xs : List A) → IsOrdered xs → IsOrdered (insert_by a xs)
    unfolding insert_by
    insert_by-IsOrdered a [] h = (tt, tt)
    insert_by-IsOrdered a (x ∷ xs) h = elim (Bool-cases (less x a)) [
      | inl e ↦ rw e (
        All-insert_by (λ y. less y x ≡ false) a xs (asym x a e) h.0,
        insert_by-IsOrdered a xs h.1,
      )
      | inr e ↦ rw e (
        (
          e,
          All-map_of (λ y. less y x ≡ false) (λ y. less y a ≡ false) (λ y p. cotrans a x y e p) xs
              h.0,
        ),
        h,
      )
    ]

    -- The sorted slice is ordered, for a comparison that is a strict weak order.
    pub sort_by-IsOrdered : (xs : List A) → IsOrdered (sort_by xs)
    unfolding sort_by
    sort_by-IsOrdered [] = tt
    sort_by-IsOrdered (x ∷ xs) = insert_by-IsOrdered x (sort_by xs) (sort_by-IsOrdered xs)
