-- ===== src/Raptor/Validator/Confirmed.antt =====
-- internal/raptor/validator.go: what Validate answers when Redis replies to every MGET.
use multi_agent_travel.Raptor.Validator.Keys.{seat_keys-PathKeys, PathKeys}
use multi_agent_travel.Raptor.Validator.Verdicts.{
  truncate-first_results, take-nil, survivors-first_results,
}
use multi_agent_travel.Breaker.{allow}
use multi_agent_travel.Prelude.GoMap.{GoMap, member}
use multi_agent_travel.Raptor.Validator.Answers.{
  Fails, Replies, has_seats-store, fetch-whole, first_results, store, has_stored_seats,
}
use multi_agent_travel.Raptor.Validator.{
  unavailable, has_seats, fill_cache, leg_key, seat_keys, needs_seat, Validator, validate,
  ask_redis, SeatValue, Redis,
}
use multi_agent_travel.Model.{Leg, JourneyPath}
use multi_agent_travel.Prelude.{
  ◌⊎◌, All-take, keep_if, String, ◌≡◌, refl, sym, ap, ◌∙◌, inl, inr, Bool, true, Option, List, [],
  ◌∷◌, map, arith, Bool-cases, eq_ℕ, eq_String, length, is_empty, All, All-map,
}
use multi_agent_travel.Prelude.Int.{ltb_ℤ, ℤ, pos, pos_part, ◌<ℤ◌, eq_ℤ}

-- Without a seat key, no leg of a candidate needs a seat.
seated_none :
    (store : String → Option (GoMap String ℤ)) (class : String) (count : ℤ) (ls : List Leg)
    → All (λ l. needs_seat l ≡ true → member (leg_key l) [] ≡ true) ls
    → has_stored_seats store class count ls ≡ true
unfolding has_stored_seats member
seated_none store class count [] h = refl
seated_none store class count (l ∷ ls) h = elim (Bool-cases (needs_seat l)) [
  | inl seated ↦ absurd (ground (arith, h.0 seated))
  | inr walked ↦ rw walked (seated_none store class count ls h.1)
]

first_results-nil : (m : ℤ) → first_results m [] ≡ []
first_results-nil m = elim (Bool-cases (ltb_ℤ (pos 0) m)) [
  | inl limited ↦ rw limited (take-nil (pos_part m))
  | inr unlimited ↦ rw unlimited
]

is_empty→[] : (ks : List String) → is_empty ks ≡ true → ks ≡ []
is_empty→[] [] h = refl
is_empty→[] (k ∷ ks) h = absurd cc

keep_if-All :
    (ok : JourneyPath → Bool) (ps : List JourneyPath) → All (λ p. ok p ≡ true) (keep_if ok ps)
keep_if-All ok [] = tt
keep_if-All ok (p ∷ ps) = elim (Bool-cases (ok p)) [
  | inl kept ↦ rw kept (kept, keep_if-All ok ps)
  | inr dropped ↦ rw dropped (keep_if-All ok ps)
]

pub first_results-All :
    (P : JourneyPath → Type 0) (m : ℤ) (ps : List JourneyPath)
    → All P ps
    → All P (first_results m ps)
first_results-All P m ps h = elim (Bool-cases (ltb_ℤ (pos 0) m)) [
  | inl limited ↦ rw limited (All-take P (pos_part m) ps h)
  | inr unlimited ↦ rw unlimited h
]

keep_if_whole :
    (ok : JourneyPath → Bool) (ps : List JourneyPath)
    → All (λ p. ok p ≡ true) ps
    → keep_if ok ps ≡ ps
keep_if_whole ok [] h = refl
keep_if_whole ok (p ∷ ps) h = rw h.0 (ap (◌∷◌ p) (keep_if_whole ok ps h.1))

keep_if_same :
    (ok ok' : JourneyPath → Bool) (ps : List JourneyPath)
    → All (λ p. ok p ≡ ok' p) ps
    → keep_if ok ps ≡ keep_if ok' ps
keep_if_same ok ok' [] h = refl
keep_if_same ok ok' (p ∷ ps) h = elim (Bool-cases (ok' p)) [
  | inl kept ↦ rw (h.0, kept) (ap (◌∷◌ p) (keep_if_same ok ok' ps h.1))
  | inr dropped ↦ rw (h.0, dropped) (keep_if_same ok ok' ps h.1)
]

-- The journeys that have a stored seat in the class on every leg that needs one.
abbrev pub confirmed :
    Redis → (String → SeatValue) → String → ℤ → List JourneyPath → List JourneyPath
confirmed redis reply class count ps =
    keep_if (λ p. has_stored_seats (store redis reply) class count p.legs) ps

module _ (redis : Redis) (reply : String → SeatValue) where
  confirmed-keyless :
      (class : String) (count : ℤ) (ps : List JourneyPath)
      → is_empty (seat_keys ps []) ≡ true
      → confirmed redis reply class count ps ≡ ps
  confirmed-keyless class count ps h = keep_if_whole _ ps (
      All-map (PathKeys (seat_keys ps [])) _
        (λ q k. seated_none (store redis reply) class count q.legs (rw (is_empty→[] _ h) at k)) ps
        (seat_keys-PathKeys ps []))

  ask_redis-confirmed :
      (now : ℤ) (v : Validator) (candidates : List JourneyPath) (class : String) (count : ℤ)
      → Replies redis reply
      → pos 0 <ℤ v.cfg.mget_chunk
      → (((ask_redis redis now v candidates class count (seat_keys candidates [])).1
            ≡ unavailable v candidates)
          × Fails redis)
        ⊎ ((ask_redis redis now v candidates class count (seat_keys candidates [])).1
            ≡ first_results v.cfg.max_results (confirmed redis reply class count candidates))
  unfolding ask_redis
  ask_redis-confirmed now v candidates class count answers p =
      let keys = seat_keys candidates [] in
      let cache = fill_cache redis keys (map reply keys) [] in
      let asked =
        fetch-whole redis reply (pos_part v.cfg.mget_chunk) (length keys) 0 keys [] answers
          (ground arith) (omega arith) in
      let kept =
        survivors-first_results v.cfg.max_results (λ p. has_seats cache class count p.legs)
          candidates in
      let same =
        keep_if_same (λ p. has_seats cache class count p.legs)
          (λ p. has_stored_seats (store redis reply) class count p.legs) candidates
          (All-map (PathKeys keys) _ (λ q h. has_seats-store redis reply keys class count q.legs h)
            candidates (seat_keys-PathKeys candidates [])) in
      elim asked [
        | inl (stopped, why) ↦ inl (rw (ask_redis, stopped), why)
        | inr cached ↦
            inr (rw (ask_redis, cached) (kept ∙ ap (first_results v.cfg.max_results) same))
      ]

  -- Where the breaker admits the call, Validate returns the first MaxResults of the candidates, in
  -- their order, that have a stored seat in the class on every leg that needs one, however the keys
  -- are cut into MGETs; or an MGET failed, and it returns what it returns without Redis. The client
  -- is there, and the chunk size is positive.
  pub validate-confirmed :
      (now later : ℤ) (v : Validator) (candidates : List JourneyPath) (class : String) (count : ℤ)
      → Replies redis reply
      → v.has_client ≡ true
      → pos 0 <ℤ v.cfg.mget_chunk
      → (allow v.cb now).1 ≡ true
      → (((validate redis now later v candidates class count).1 ≡ unavailable v candidates)
          × Fails redis)
        ⊎ ((validate redis now later v candidates class count).1
            ≡ first_results v.cfg.max_results (confirmed redis reply class count candidates))
  unfolding validate
  validate-confirmed now later v [] class count answers client chunk admitted =
      inr (sym (first_results-nil v.cfg.max_results))
  validate-confirmed now later v (p ∷ ps) class count answers client chunk admitted =
      elim (Bool-cases (is_empty (seat_keys (p ∷ ps) []))) [
        | inl keyless ↦ inr (
            rw keyless (
              truncate-first_results v (p ∷ ps)
              ∙ ap (first_results v.cfg.max_results)
                  (sym (confirmed-keyless class count (p ∷ ps) keyless))))
        | inr keyed ↦
            rw (keyed, client, admitted)
              (ask_redis-confirmed later _ (p ∷ ps) class count answers chunk)
      ]

  ask_redis-strict :
      (now : ℤ) (v : Validator) (candidates : List JourneyPath) (class : String) (count : ℤ)
      → Replies redis reply
      → pos 0 <ℤ v.cfg.mget_chunk
      → v.cfg.strict ≡ true
      → All
          (λ p. has_stored_seats (store redis reply) class count p.legs ≡ true)
          (ask_redis redis now v candidates class count (seat_keys candidates [])).1
  unfolding unavailable
  ask_redis-strict now v candidates class count answers chunk strict =
      elim (ask_redis-confirmed now v candidates class count answers chunk) [
        | inl (unanswered, why) ↦ rw (unanswered, strict) tt
        | inr checked ↦
            rw checked (first_results-All _ v.cfg.max_results _ (keep_if-All _ candidates))
      ]

  -- A strict Validate fails closed: whatever the state of the breaker, with or without a client and
  -- whichever MGETs fail, every journey that it returns has a stored seat in the class on every leg
  -- that needs one. The chunk size is positive.
  pub validate-strict :
      (now later : ℤ) (v : Validator) (candidates : List JourneyPath) (class : String) (count : ℤ)
      → Replies redis reply
      → pos 0 <ℤ v.cfg.mget_chunk
      → v.cfg.strict ≡ true
      → All
          (λ p. has_stored_seats (store redis reply) class count p.legs ≡ true)
          (validate redis now later v candidates class count).1
  unfolding validate unavailable
  validate-strict now later v [] class count answers chunk strict = tt
  validate-strict now later v (p ∷ ps) class count answers chunk strict =
      elim (Bool-cases (is_empty (seat_keys (p ∷ ps) []))) [
        | inl keyless ↦ rw keyless (
            rw (truncate-first_results v (p ∷ ps)) (
              rw (← confirmed-keyless class count (p ∷ ps) keyless) (
                first_results-All _ v.cfg.max_results _ (
                  keep_if-All (λ q. has_stored_seats (store redis reply) class count q.legs)
                    (p ∷ ps)))))
        | inr keyed ↦ elim (Bool-cases v.has_client) [
          | inr absent ↦ rw (keyed, absent, strict) tt
          | inl client ↦ elim (Bool-cases (allow v.cb now).1) [
            | inr refused ↦ rw (keyed, client, refused, strict) tt
            | inl admitted ↦
                rw (keyed, client, admitted)
                  (ask_redis-strict later _ (p ∷ ps) class count answers chunk strict)
          ]
        ]
      ]
