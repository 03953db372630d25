-- ===== src/Prelude/Sorted.antt =====
-- A stable sort by a total preorder sorts.
use multi_agent_travel.Prelude.Lists.{All-map}
use multi_agent_travel.Prelude.Tests.{Bool-cases}
use mathlib.Core.Logic.{inl, inr}
use mathlib.Core.Path.{◌≡◌}
use mathlib.Core.Bool.{Bool, true, false}
use mathlib.Core.List.{List, [], ◌∷◌}
use multi_agent_travel.Prelude.Sorting.{IsSorted, insert_sorted, sort, All-insert_sorted}

module _ {ℓ} {A : Type ℓ} (less : A → A → Bool)
    (asym : (x y : A) → less x y ≡ true → less y x ≡ false)
    (weak : (x y z : A) → less y x ≡ false → less z y ≡ false → less z x ≡ false) where
  insert_sorted-IsSorted :
      (x : A) (ys : List A) → IsSorted less ys → IsSorted less (insert_sorted less x ys)
  unfolding insert_sorted
  insert_sorted-IsSorted x [] h = (tt, tt)
  insert_sorted-IsSorted x (y ∷ ys) h = elim (Bool-cases (less y x)) [
    | inl e ↦ rw e (
      All-insert_sorted less (λ z. less z y ≡ false) x ys (asym y x e) h.0,
      insert_sorted-IsSorted x ys h.1,
    )
    | inr e ↦
        rw e (
          (e, All-map (λ z. less z y ≡ false) (λ z. less z x ≡ false) (λ z. weak x y z e) ys h.0),
          h,
        )
  ]

  pub sort-IsSorted : (xs : List A) → IsSorted less (sort less xs)
  unfolding sort
  sort-IsSorted [] = tt
  sort-IsSorted (x ∷ xs) = insert_sorted-IsSorted x (sort less xs) (sort-IsSorted xs)
