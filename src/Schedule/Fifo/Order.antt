-- ===== src/Schedule/Fifo/Order.antt =====
-- Lists of times compared position by position.
use multi_agent_travel.Prelude.{
  ℕ, zero, suc, ◌≡◌, refl, true, List, [], ◌∷◌, none, some, arith, length, get_elem?, ap,
}
use multi_agent_travel.Prelude.Int.{ℤ, ◌≤ℤ◌}
use multi_agent_travel.Schedule.Fifo.{no_earlier}

-- Equally long, and no entry of the first is above the entry of the second.
abbrev pub Below : List ℤ → List ℤ → Type 0
Below [] [] = Unit
Below [] (y ∷ ys) = ⊥
Below (x ∷ xs) [] = ⊥
Below (x ∷ xs) (y ∷ ys) = (x ≤ℤ y) × Below xs ys

pub Below-refl : (xs : List ℤ) → Below xs xs
Below-refl [] = tt
Below-refl (x ∷ xs) = (omega arith, Below-refl xs)

pub Below-trans : (xs ys zs : List ℤ) → Below xs ys → Below ys zs → Below xs zs
Below-trans [] [] [] h k = tt
Below-trans [] [] (z ∷ zs) h k = absurd k
Below-trans [] (y ∷ ys) zs h k = absurd h
Below-trans (x ∷ xs) [] zs h k = absurd h
Below-trans (x ∷ xs) (y ∷ ys) [] h k = absurd k
Below-trans (x ∷ xs) (y ∷ ys) (z ∷ zs) h k = (omega arith, Below-trans xs ys zs h.1 k.1)

pub no_earlier-Below :
    (xs ys : List ℤ) → length xs ≡ length ys → no_earlier xs ys ≡ true → Below xs ys
unfolding no_earlier
no_earlier-Below [] [] e h = tt
no_earlier-Below [] (y ∷ ys) e h = absurd (omega arith)
no_earlier-Below (x ∷ xs) [] e h = absurd (omega arith)
no_earlier-Below (x ∷ xs) (y ∷ ys) e h =
    (ground arith, no_earlier-Below xs ys (omega arith) (ground arith))

pub Below-get :
    (xs ys : List ℤ) (i : ℕ) {x : ℤ}
    → Below xs ys
    → get_elem? xs i ≡ some x
    → (y : ℤ) × (get_elem? ys i ≡ some y) × (x ≤ℤ y)
Below-get [] ys i h e = cc
Below-get (x ∷ xs) [] i h e = absurd h
Below-get (x ∷ xs) (y ∷ ys) zero h e = (y, refl, ground arith)
Below-get (x ∷ xs) (y ∷ ys) (suc i) h e = Below-get xs ys i h.1 e

pub Below-length : (xs ys : List ℤ) → Below xs ys → length xs ≡ length ys
Below-length [] [] h = refl
Below-length [] (y ∷ ys) h = absurd h
Below-length (x ∷ xs) [] h = absurd h
Below-length (x ∷ xs) (y ∷ ys) h = ap suc (Below-length xs ys h.1)

pub Below-none :
    (xs ys : List ℤ) (i : ℕ) → Below xs ys → get_elem? xs i ≡ none → get_elem? ys i ≡ none
Below-none [] [] i h e = refl
Below-none [] (y ∷ ys) i h e = absurd h
Below-none (x ∷ xs) [] i h e = absurd h
Below-none (x ∷ xs) (y ∷ ys) zero h e = cc
Below-none (x ∷ xs) (y ∷ ys) (suc i) h e = Below-none xs ys i h.1 e

-- Pointwise order is what the loop tests.
pub no_earlier_of_get :
    (xs ys : List ℤ)
    → ((i : ℕ) (x y : ℤ) → get_elem? xs i ≡ some x → get_elem? ys i ≡ some y → x ≤ℤ y)
    → no_earlier xs ys ≡ true
unfolding no_earlier
no_earlier_of_get [] ys h = refl
no_earlier_of_get (x ∷ xs) [] h = refl
no_earlier_of_get (x ∷ xs) (y ∷ ys) h =
    ground (arith, h 0 x y refl refl, no_earlier_of_get xs ys (λ i a b p q. h (suc i) a b p q))
