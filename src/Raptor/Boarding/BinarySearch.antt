-- ===== src/Raptor/Boarding/BinarySearch.antt =====
-- sort.Search finds the first index at which a monotone predicate holds.
use multi_agent_travel.Prelude.{
  ℕ, zero, suc, ◌+◌, ◌-◌, ◌/◌, ◌≤◌, ◌<◌, ◌≡◌, Bool, true, false, arith, ltb, inl, inr, Bool-cases,
}
use multi_agent_travel.Raptor.Boarding.{search_loop, sort_search}

-- `f` is false below `k` and true from `k` up to `n`.
pub record IsBoundary (n : ℕ) (f : ℕ → Bool) (k : ℕ) : Type 0 where
  pub within : k ≤ n
  pub below : (i : ℕ) → i < k → f i ≡ false
  pub above : (i : ℕ) → k ≤ i → i < n → f i ≡ true

module _ (n : ℕ) (f : ℕ → Bool)
    (monotone : (i j : ℕ) → i ≤ j → j < n → f i ≡ true → f j ≡ true) where
  false_below : (h m : ℕ) → h < n → m < h + 1 → f h ≡ false → f m ≡ false
  false_below h m inside le e = elim (Bool-cases (f m)) [
    | inl t ↦ cc (monotone m h (omega arith) inside t)
    | inr u ↦ u
  ]

  search_loop-IsBoundary :
      (fuel i j : ℕ)
      → j - i ≤ fuel
      → i ≤ j
      → j ≤ n
      → ((m : ℕ) → m < i → f m ≡ false)
      → ((m : ℕ) → j ≤ m → m < n → f m ≡ true)
      → IsBoundary n f (search_loop fuel f i j)
  unfolding search_loop
  search_loop-IsBoundary zero i j small le top low high = record {
    within = omega arith;
    below = low;
    above = λ m p q. high m (omega arith) q;
  }
  search_loop-IsBoundary (suc fuel) i j small le top low high =
      let h = (i + j) / 2 in
      elim (Bool-cases (ltb i j)) [
        | inr e ↦
            rw (e, search_loop)
              (record {
                within = omega arith;
                below = low;
                above = λ m p q. high m (ground arith) q;
              })
        | inl e ↦
            let lt : i < j = ground arith in
            rw (e, search_loop)
              (elim (Bool-cases (f h)) [
                | inl t ↦
                    rw (t, search_loop)
                      (search_loop-IsBoundary fuel i h (omega arith) (omega arith) (omega arith) low
                        (λ m p q. monotone h m p q t))
                | inr u ↦
                    rw (u, search_loop)
                      (search_loop-IsBoundary fuel (h + 1) j (omega arith) (omega arith) top
                        (λ m p. false_below h m (omega arith) p u) high)
              ])
      ]

  -- sort.Search over n indices, with a predicate that stays true once it is true, returns the index
  -- below which it is false and from which on it is true.
  pub sort_search-IsBoundary : IsBoundary n f (sort_search n f)
  unfolding sort_search
  sort_search-IsBoundary =
      search_loop-IsBoundary n 0 n (omega arith) (omega arith) (omega arith)
        (λ m p. absurd (omega arith)) (λ m p q. absurd (omega arith))
