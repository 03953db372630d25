-- ===== src/Api/Search/Params.antt =====
-- internal/api/search.go: what parseSearch accepts.
use multi_agent_travel.Prelude.Text.{parse_int, no_number, trim_space, Parsed, byte_length}
use multi_agent_travel.Model.Dates.{valid_date}
use multi_agent_travel.Config.{Config}
use multi_agent_travel.Model.{max_allowed_rounds, max_passengers, SearchParams}
use multi_agent_travel.Api.Search.{
  exact, clamped, Query, requested, max_departure_unix, parsed, parse_search, check_dep_time,
  check_options,
}
use multi_agent_travel.Prelude.{
  ◌≤◌, ◌≡◌, ◌≢◌, inl, inr, true, false, not, ◌||◌, arith, ltb, Bool-cases, ◌==◌, eq_ℕ, eq_String,
}
use multi_agent_travel.Prelude.Int.{ℤ, pos, ltb_ℤ, leb_ℤ, ◌≤ℤ◌, eq_ℤ}

pub record IsAccepted (p : SearchParams) : Type 0 where
  pub has_origin : p.origin ≢ ""
  pub has_destination : p.destination ≢ ""
  pub travels : p.origin ≢ p.destination
  pub dated : valid_date p.date ≡ true
  pub departs : (pos 1 ≤ℤ p.dep_time) × (p.dep_time ≤ℤ max_departure_unix)
  pub class_bound : byte_length p.seat_class ≤ 32
  pub passengers_bound : (pos 1 ≤ℤ p.passengers) × (p.passengers ≤ℤ pos 20)
  pub rounds_bound : (pos 1 ≤ℤ p.max_rounds) × (p.max_rounds ≤ℤ pos 8)
  pub transfer_bound : (pos 0 ≤ℤ p.min_transfer_seconds) × (p.min_transfer_seconds ≤ℤ pos 21_600)

parsed_inj : {p q : SearchParams} → parsed p ≡ parsed q → p ≡ q
parsed_inj e = cc

-- What the last checks ask for.
record HasOptions (p : SearchParams) : Type 0 where
  class_fits : byte_length p.seat_class ≤ 32
  passengers_fit : p.passengers ≤ℤ pos 20
  rounds_fit : (pos 1 ≤ℤ p.max_rounds) × (p.max_rounds ≤ℤ pos 8)
  transfer_fits : (pos 0 ≤ℤ p.min_transfer_seconds) × (p.min_transfer_seconds ≤ℤ pos 21_600)

check_options-parsed :
    (cfg : Config) (p q : SearchParams) → check_options cfg p ≡ parsed q → (p ≡ q) × HasOptions p
unfolding check_options
check_options-parsed cfg p q h = elim (Bool-cases (ltb 32 (byte_length p.seat_class))) [
  | inl long ↦ absurd cc
  | inr short ↦ elim (Bool-cases (ltb_ℤ max_passengers p.passengers)) [
    | inl many ↦ absurd cc
    | inr few ↦
        elim (Bool-cases (ltb_ℤ p.max_rounds (pos 1) || ltb_ℤ max_allowed_rounds p.max_rounds)) [
          | inl outside ↦ absurd cc
          | inr inside ↦
              elim (Bool-cases (
                ltb_ℤ p.min_transfer_seconds (pos 0)
                || ltb_ℤ (pos 21_600) p.min_transfer_seconds)) [
                  | inl far ↦ absurd cc
                  | inr near ↦
                      let same : parsed p ≡ parsed q = rw (short, few, inside, near) at h in
                      (
                        parsed_inj same,
                        record {
                          class_fits = ground (arith, short);
                          passengers_fit = ground (arith, few);
                          rounds_fit = ground (arith, inside);
                          transfer_fits = ground (arith, near);
                        },
                      )
                ]
        ]
  ]
]

check_dep_time-parsed :
    (cfg : Config) (p q : SearchParams) (dep : Parsed)
    → check_dep_time cfg p dep ≡ parsed q
    → (d : ℤ) × (record p { dep_time = d } ≡ q)
      × HasOptions q
      × ((pos 1 ≤ℤ d) × (d ≤ℤ max_departure_unix))
unfolding check_dep_time
check_dep_time-parsed cfg p q no_number h = absurd cc
check_dep_time-parsed cfg p q (clamped d) h = absurd cc
check_dep_time-parsed cfg p q (exact d) h = elim (Bool-cases (leb_ℤ d (pos 0))) [
  | inl past ↦ absurd cc
  | inr future ↦ elim (Bool-cases (ltb_ℤ max_departure_unix d)) [
    | inl distant ↦ absurd cc
    | inr near ↦
        let (same, options) =
          check_options-parsed cfg (record p { dep_time = d }) q (rw (future, near) at h) in
        (d, same, rw (← same) options, (ground (arith, future), ground (arith, near)))
  ]
]

accepted :
    (cfg : Config) (q : Query) (d : ℤ)
    → ((requested cfg q).origin == ""
        || (requested cfg q).destination == ""
        || (requested cfg q).date == "")
      ≡ false
    → ((requested cfg q).origin == (requested cfg q).destination) ≡ false
    → not (valid_date (requested cfg q).date) ≡ false
    → HasOptions (record (requested cfg q) { dep_time = d })
    → (pos 1 ≤ℤ d) × (d ≤ℤ max_departure_unix)
    → IsAccepted (record (requested cfg q) { dep_time = d })
unfolding requested
accepted cfg q d named moving dated options bounds =
    let r = requested cfg q in
    record {
      has_origin = ground (arith, named, eq_String.decides r.origin "");
      has_destination = ground (arith, named, eq_String.decides r.destination "");
      travels = ground (arith, moving, eq_String.decides r.origin r.destination);
      dated = ground (arith, dated);
      departs = bounds;
      class_bound = options.class_fits;
      passengers_bound = (ground arith, options.passengers_fit);
      rounds_bound = options.rounds_fit;
      transfer_bound = options.transfer_fits;
    }

-- A search that parseSearch accepts, whatever the query answers: it names two different stations and
-- a date of the calendar, and its departure time, seat class, passengers, rounds and transfer time
-- are within the bounds of the service.
pub parse_search-IsAccepted :
    (cfg : Config) (q : Query) (p : SearchParams) → parse_search cfg q ≡ parsed p → IsAccepted p
unfolding parse_search requested
parse_search-IsAccepted cfg q p h =
    let r = requested cfg q in
    let raw_dep = trim_space (q.query "dep_time" "") in
    elim (Bool-cases (r.origin == "" || r.destination == "" || r.date == "")) [
      | inl lacking ↦ absurd cc
      | inr named ↦ elim (Bool-cases (r.origin == r.destination)) [
        | inl still ↦ absurd cc
        | inr moving ↦ elim (Bool-cases (not (valid_date r.date))) [
          | inl undated ↦ absurd cc
          | inr dated ↦ elim (Bool-cases (raw_dep == "")) [
            | inl untimed ↦ absurd cc
            | inr timed ↦
                let (d, same, options, bounds) =
                  check_dep_time-parsed cfg r p (parse_int raw_dep)
                    (rw (named, moving, dated, timed) at h) in
                rw (← same) (accepted cfg q d named moving dated (rw (← same) at options) bounds)
          ]
        ]
      ]
    ]
