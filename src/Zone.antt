-- ===== src/Zone.antt =====
-- internal/seat/zone.go: the polling zone of a trip. The source divides the seconds to departure by
-- 3600 in floating point and compares with a whole number of hours; the model compares the seconds.
use multi_agent_travel.Prelude.{
  ℕ, ◌≤◌, String, Bool, true, Option, none, some, List, [], ◌∷◌, arith, if◌then◌else◌, eq_ℕ,
  eq_String,
}
use multi_agent_travel.Prelude.Int.{wrap64_id, ◌-ℤ◌, IsInt64, sub64, ℤ, pos, ltb_ℤ, ◌≤ℤ◌, eq_ℤ}

-- `max_seconds` is none for the zone without a bound (math.MaxFloat64); `interval` in seconds.
pub record Zone : Type 0 where
  pub name : String
  pub max_seconds : Option ℤ
  pub interval : ℕ

abbrev pub red : Zone
red = record { name = "RED"; max_seconds = some (pos 43_200); interval = 300 }

abbrev pub yellow : Zone
yellow = record { name = "YELLOW"; max_seconds = some (pos 172_800); interval = 1_800 }

abbrev pub green : Zone
green = record { name = "GREEN"; max_seconds = some (pos 604_800); interval = 14_400 }

abbrev pub cold : Zone
cold = record { name = "COLD"; max_seconds = none; interval = 86_400 }

abbrev pub zones : List Zone
zones = red ∷ yellow ∷ green ∷ cold ∷ []

unfoldable pub is_within : ℤ → Zone → Bool
is_within secs z = elim z.max_seconds [ none ↦ true | some bound ↦ ltb_ℤ secs bound ]

-- The loop: the first zone that matches, or the last one.
unfoldable pub first_zone : ℤ → Zone → List Zone → Zone
unfolding is_within
first_zone secs last [] = last
first_zone secs last (z ∷ zs) =
    let rest = first_zone secs last zs in if is_within secs z then z else rest

unfoldable pub classify_zone : ℤ → ℤ → Zone
unfolding first_zone sub64
classify_zone departure_unix now = first_zone (sub64 departure_unix now) cold zones

first_zone_mono :
    (a b : ℤ) → a ≤ℤ b → (first_zone a cold zones).interval ≤ (first_zone b cold zones).interval
unfolding first_zone is_within
first_zone_mono a b h = ground (arith, h)

-- The zone of the sooner of two trips has a polling interval no longer than that of the zone of the
-- later one, where neither time to departure overflows 64 bits.
pub classify_zone_mono :
    (d e now : ℤ)
    → d ≤ℤ e
    → IsInt64 (d -ℤ now)
    → IsInt64 (e -ℤ now)
    → (classify_zone d now).interval ≤ (classify_zone e now).interval
unfolding classify_zone sub64
classify_zone_mono d e now h p q =
    rw (wrap64_id (d -ℤ now) p, wrap64_id (e -ℤ now) q)
      (first_zone_mono (d -ℤ now) (e -ℤ now) (unfold ◌-ℤ◌ in ground arith))
