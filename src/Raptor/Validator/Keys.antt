-- ===== src/Raptor/Validator/Keys.antt =====
-- internal/raptor/validator.go: Validate asks for the seats of every leg.
use multi_agent_travel.Prelude.GoMap.{member-add_member, add_member, member}
use multi_agent_travel.Raptor.Validator.{leg_key, needs_seat, seat_keys, add_leg_keys}
use multi_agent_travel.Model.{Leg, JourneyPath}
use multi_agent_travel.Prelude.{
  if_same, String, ◌≡◌, inl, inr, true, List, [], ◌∷◌, if◌then◌else◌, Bool-cases, ◌==◌, eq_ℕ,
  eq_String, ==_refl, All, All-map,
}
use multi_agent_travel.Prelude.Int.{eq_ℤ}

-- Every seat key of the candidates is collected.
add_leg_keys-grows :
    (ls : List Leg) (keys : List String) (k : String)
    → member k keys ≡ true
    → member k (add_leg_keys ls keys) ≡ true
unfolding add_leg_keys
add_leg_keys-grows [] keys k h = h
add_leg_keys-grows (l ∷ ls) keys k h = elim (Bool-cases (needs_seat l)) [
  | inr walked ↦ rw walked (add_leg_keys-grows ls keys k h)
  | inl seated ↦ rw seated (
      add_leg_keys-grows ls (add_member (leg_key l) keys) k
        (rw (member-add_member (leg_key l) k keys, h) (if_same (leg_key l == k) true)))
]

add_leg_keys-HasKeys :
    (ls : List Leg) (keys : List String)
    → All (λ l. needs_seat l ≡ true → member (leg_key l) (add_leg_keys ls keys) ≡ true) ls
unfolding add_leg_keys
add_leg_keys-HasKeys [] keys = tt
add_leg_keys-HasKeys (l ∷ ls) keys =
    let next = if needs_seat l then add_member (leg_key l) keys else keys in
    (
      λ seated.
          add_leg_keys-grows ls next (leg_key l)
            (rw seated (rw (member-add_member (leg_key l) (leg_key l) keys, ==_refl (leg_key l)))),
      add_leg_keys-HasKeys ls next,
    )

abbrev pub PathKeys : List String → JourneyPath → Type 0
PathKeys keys p = All (λ l. needs_seat l ≡ true → member (leg_key l) keys ≡ true) p.legs

seat_keys-grows :
    (ps : List JourneyPath) (keys : List String) (k : String)
    → member k keys ≡ true
    → member k (seat_keys ps keys) ≡ true
unfolding seat_keys
seat_keys-grows [] keys k h = h
seat_keys-grows (p ∷ ps) keys k h =
    seat_keys-grows ps (add_leg_keys p.legs keys) k (add_leg_keys-grows p.legs keys k h)

pub seat_keys-PathKeys :
    (ps : List JourneyPath) (keys : List String) → All (PathKeys (seat_keys ps keys)) ps
unfolding seat_keys
seat_keys-PathKeys [] keys = tt
seat_keys-PathKeys (p ∷ ps) keys = (
  All-map (λ l. needs_seat l ≡ true → member (leg_key l) (add_leg_keys p.legs keys) ≡ true) _
      (λ l f seated. seat_keys-grows ps (add_leg_keys p.legs keys) (leg_key l) (f seated)) p.legs
      (add_leg_keys-HasKeys p.legs keys),
  seat_keys-PathKeys ps (add_leg_keys p.legs keys),
)
