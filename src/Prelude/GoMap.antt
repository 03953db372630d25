-- ===== src/Prelude/GoMap.antt =====
-- Go's maps, as association lists with one entry for each key. A `range` over a map visits the
-- entries in an order that Go does not fix: the order of the list.
use mathlib.Core.Path.{◌≡◌, refl}
use mathlib.Core.Bool.{Bool, true, false}
use mathlib.Core.Option.{Option, none, some}
use mathlib.Core.List.{List, [], ◌∷◌}
use native.Mathlib.Omega.{arith}
use multi_agent_travel.Prelude.Tests.{if◌then◌else◌, Eq, ◌==◌, eq→≡, Bool-cases}
use mathlib.Core.Logic.{inl, inr}
use mathlib.Core.List.{map}

abbrev pub GoMap {ℓ κ} : Type ℓ → Type κ → Type (ℓ ⊔ κ)
GoMap K V = List (K × V)

module _ {ℓ κ} {K : Type ℓ} {V : Type κ} ⦃e : Eq K⦄ where
  -- v, ok := m[k]
  unfoldable pub lookup : K → GoMap K V → Option V
  lookup k [] = none
  lookup k ((key, val) ∷ rest) = if key == k then some val else lookup k rest

  -- m[k] = v
  unfoldable pub insert : K → V → GoMap K V → GoMap K V
  insert k v [] = (k, v) ∷ []
  insert k v ((key, val) ∷ rest) =
      if key == k then (key, v) ∷ rest else (key, val) ∷ insert k v rest

  -- Writing one key leaves what the other keys have.
  pub lookup-insert :
      (new asked : K) (val : V) (m : GoMap K V)
      → lookup asked (insert new val m) ≡ (if new == asked then some val else lookup asked m)
  unfolding insert lookup
  lookup-insert new asked val [] = refl
  lookup-insert new asked val ((key, old) ∷ rest) = ground (
    arith,
    e.decides new asked,
    e.decides key new,
    e.decides key asked,
    lookup-insert new asked val rest,
  )

  -- m[k], with the zero value where the key is missing
  abbrev pub lookup_or : V → K → GoMap K V → V
  lookup_or d k m = elim (lookup k m) [ none ↦ d | some v ↦ v ]

-- The keys that a `range` visits.
abbrev pub keys {ℓ κ} : {K : Type ℓ} {V : Type κ} → GoMap K V → List K
keys m = map (λ e. e.0) m

-- Sets, which the program keeps as maps to bool or to struct{}.
module _ {ℓ} {K : Type ℓ} ⦃e : Eq K⦄ where
  unfoldable pub member : K → List K → Bool
  member k [] = false
  member k (j ∷ s) = if j == k then true else member k s

  unfoldable pub add_member : K → List K → List K
  unfolding member
  add_member k s = if member k s then s else k ∷ s

  pub member-add_member :
      (k j : K) (s : List K) → member j (add_member k s) ≡ (if k == j then true else member j s)
  unfolding add_member
  member-add_member k j s = elim (Bool-cases (member k s)) [
    | inl old ↦ rw old (elim (Bool-cases (k == j)) [
      | inl same ↦ rw same (rw (eq→≡ k j same) at old)
      | inr other ↦ rw other
    ])
    | inr new ↦ rw (new, member)
  ]
