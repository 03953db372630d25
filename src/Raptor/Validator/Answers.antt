-- ===== src/Raptor/Validator/Answers.antt =====
-- internal/raptor/validator.go: what Validate answers while Redis is reachable.
use multi_agent_travel.Raptor.Validator.{
  has_seats, seat_map_of, leg_key, Cache, needs_seat, fill_cache, fetch, SeatValue, Redis,
}
use multi_agent_travel.Prelude.GoMap.{lookup-insert, lookup_or, lookup, insert, member, GoMap}
use multi_agent_travel.Model.{Leg, JourneyPath}
use multi_agent_travel.Prelude.{
  ◌⊎◌, if_same, Option-cases, length-drop, take-append-drop, ℕ, zero, suc, ◌+◌, ◌≤◌, ◌<◌, String,
  ◌≡◌, refl, sym, ap, ◌∙◌, inl, inr, Bool, true, false, Option, none, some, List, [], ◌∷◌, ◌++◌,
  map, arith, if◌then◌else◌, Bool-cases, ◌==◌, eq_ℕ, eq_String, eq→≡, length, take, drop, All,
}
use multi_agent_travel.Prelude.Int.{ℤ, pos, pos_part, ltb_ℤ, eq_ℤ}

-- A leg has a confirmed seat, and a journey has one on every leg that needs it, by what Redis
-- stores.
unfoldable pub has_stored_seats : (String → Option (GoMap String ℤ)) → String → ℤ → List Leg → Bool
has_stored_seats store class count [] = true
has_stored_seats store class count (l ∷ ls) =
    let rest = has_stored_seats store class count ls in
    if needs_seat l
    then elim (store (leg_key l)) [
      | none ↦ false
      | some seats ↦ if ltb_ℤ (lookup_or (pos 0) class seats) count then false else rest
    ]
    else rest

-- The first MaxResults of a list, or all of it where MaxResults is not positive.
abbrev pub first_results : ℤ → List JourneyPath → List JourneyPath
first_results max_results ps =
    if ltb_ℤ (pos 0) max_results then take (pos_part max_results) ps else ps

-- An MGET of a call fails, or replies the value of each key that it asks for.
abbrev pub Replies : Redis → (String → SeatValue) → Type 0
Replies redis reply =
    (i : ℕ) (keys : List String)
    → (redis.mget i keys ≡ none) ⊎ (redis.mget i keys ≡ some (map reply keys))

-- Some MGET fails.
abbrev pub Fails : Redis → Type 0
Fails redis = (i : ℕ) × (keys : List String) × (redis.mget i keys ≡ none)

module _ (redis : Redis) (reply : String → SeatValue) where
  fill_cache-append :
      (ks ls : List String) (cache : Cache)
      → fill_cache redis (ks ++ ls) (map reply (ks ++ ls)) cache
        ≡ fill_cache redis ls (map reply ls) (fill_cache redis ks (map reply ks) cache)
  unfolding fill_cache
  fill_cache-append [] ls cache = refl
  fill_cache-append (k ∷ ks) ls cache =
      fill_cache-append ks ls (insert k (seat_map_of redis (reply k)) cache)

  -- However the keys are cut into chunks, the cache is that of one MGET for all, unless one fails.
  pub fetch-whole :
      (chunk fuel i : ℕ) (keys : List String) (cache : Cache)
      → Replies redis reply
      → 0 < chunk
      → length keys ≤ fuel
      → ((fetch redis chunk fuel i keys cache ≡ none) × Fails redis)
        ⊎ (fetch redis chunk fuel i keys cache
            ≡ some (fill_cache redis keys (map reply keys) cache))
  unfolding fetch
  fetch-whole chunk zero i [] cache answers p h = inr (unfold fill_cache in refl)
  fetch-whole chunk zero i (k ∷ ks) cache answers p h = absurd (omega arith)
  fetch-whole chunk (suc fuel) i [] cache answers p h = inr (unfold fill_cache in refl)
  fetch-whole zero (suc fuel) i (k ∷ ks) cache answers p h = absurd (omega arith)
  fetch-whole (suc c) (suc fuel) i (k ∷ ks) cache answers p h =
      let done = fill_cache redis (k ∷ take c ks) (map reply (k ∷ take c ks)) cache in
      let rest =
        fetch-whole (suc c) fuel (i + 1) (drop c ks) done answers (omega arith)
          (omega (arith, length-drop c ks)) in
      let joined = fill_cache-append (k ∷ take c ks) (drop c ks) cache in
      elim (answers i (k ∷ take c ks)) [
        | inl failed ↦ inl (rw (fetch, failed), (i, k ∷ take c ks, failed))
        | inr replied ↦ elim rest [
          | inl (stopped, why) ↦ inl (rw (fetch, replied) stopped, why)
          | inr cached ↦
              inr (rw (fetch, replied) (cached ∙ ap some (sym joined ∙ whole c k ks cache)))
        ]
      ]
    where
      whole :
          (c : ℕ) (k : String) (ks : List String) (cache : Cache)
          → fill_cache redis
              ((k ∷ take c ks) ++ drop c ks)
              (map reply ((k ∷ take c ks) ++ drop c ks))
              cache
            ≡ fill_cache redis (k ∷ ks) (map reply (k ∷ ks)) cache
      whole c k ks cache =
          ap (λ (l : List String). fill_cache redis (k ∷ l) (map reply (k ∷ l)) cache)
            (take-append-drop c ks)

  lookup-fill_cache :
      (keys : List String) (k : String) (cache : Cache)
      → lookup k (fill_cache redis keys (map reply keys) cache)
        ≡ (if member k keys then some (seat_map_of redis (reply k)) else lookup k cache)
  unfolding fill_cache member
  lookup-fill_cache [] k cache = refl
  lookup-fill_cache (j ∷ keys) k cache =
      let later = lookup-fill_cache keys k (insert j (seat_map_of redis (reply j)) cache) in
      let first = lookup-insert j k (seat_map_of redis (reply j)) cache in
      elim (Bool-cases (j == k)) [
        | inl same ↦
            let e = eq→≡ j k same in
            later
            ∙ rw (first, same, e) (if_same (member k keys) (some (seat_map_of redis (reply k))))
        | inr other ↦ later ∙ rw (first, other)
      ]

  -- The answer of a key, by what its text decodes to.
  abbrev pub store : String → Option (GoMap String ℤ)
  store k = seat_map_of redis (reply k)

  -- Each seat that the legs need has its key in the list.
  abbrev pub HasKeys : List String → List Leg → Type 0
  HasKeys keys = All (λ l. needs_seat l ≡ true → member (leg_key l) keys ≡ true)

  pub has_seats-store :
      (keys : List String) (class : String) (count : ℤ) (legs : List Leg)
      → HasKeys keys legs
      → has_seats (fill_cache redis keys (map reply keys) []) class count legs
        ≡ has_stored_seats store class count legs
  unfolding has_seats has_stored_seats
  has_seats-store keys class count [] h = refl
  has_seats-store keys class count (l ∷ ls) h =
      let rest = has_seats-store keys class count ls h.1 in
      elim (Bool-cases (needs_seat l)) [
        | inr walked ↦ rw (walked, rest)
        | inl seated ↦
            let here = lookup-fill_cache keys (leg_key l) [] in
            let found = h.0 seated in
            elim (Option-cases (seat_map_of redis (reply (leg_key l)))) [
              | inl gone ↦ rw (seated, here, found, gone)
              | inr (seats, es) ↦ elim (Bool-cases (ltb_ℤ (lookup_or (pos 0) class seats) count)) [
                | inl poor ↦ rw (seated, here, found, es, poor)
                | inr enough ↦ rw (seated, here, found, es, enough) rest
              ]
            ]
      ]
