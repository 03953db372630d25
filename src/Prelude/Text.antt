-- ===== src/Prelude/Text.antt =====
-- What the program uses of Go's strings and strconv packages: TrimSpace, ParseInt in base ten on 64
-- bits, and the length of a text in bytes.
use Prim.Native.Nat.{ℕ, zero, suc, ◌+◌, ◌-◌, ◌*◌}
use Prim.Native.Char.{code}
use Prim.Native.String.{String}
use mathlib.Core.Bool.{Bool, true, false, ◌&&◌, ◌||◌}
use mathlib.Core.Option.{Option, none, some}
use multi_agent_travel.Prelude.Tests.{ltb, leb, nat_eq, if◌then◌else◌}
use multi_agent_travel.Prelude.Int.{ℤ, pos, negsuc, half_range}

-- unicode.IsSpace.
abbrev pub is_space : ℕ → Bool
is_space c =
    (leb 9 c && leb c 13)
    || nat_eq c 32
    || nat_eq c 133
    || nat_eq c 160
    || nat_eq c 5_760
    || (leb 8_192 c && leb c 8_202)
    || nat_eq c 8_232
    || nat_eq c 8_233
    || nat_eq c 8_239
    || nat_eq c 8_287
    || nat_eq c 12_288

unfoldable pub trim_left : String → String
trim_left String.[] = ""
trim_left (String.◌∷◌ c s) =
    let rest = trim_left s in if is_space (code c) then rest else String.◌∷◌ c s

unfoldable pub trim_right : String → String
trim_right String.[] = ""
trim_right (String.◌∷◌ c s) = elim (trim_right s) [
  | String.[] ↦ if is_space (code c) then "" else String.◌∷◌ c ""
  | String.◌∷◌ d t ↦ String.◌∷◌ c (String.◌∷◌ d t)
]

unfoldable pub trim_space : String → String
unfolding trim_left trim_right
trim_space s = trim_right (trim_left s)

-- The bytes of a code point in UTF-8.
abbrev pub byte_width : ℕ → ℕ
byte_width c = if ltb c 128 then 1 else if ltb c 2_048 then 2 else if ltb c 65_536 then 3 else 4

unfoldable pub byte_length : String → ℕ
byte_length String.[] = 0
byte_length (String.◌∷◌ c s) = byte_width (code c) + byte_length s

abbrev is_digit : ℕ → Bool
is_digit c = leb b'0' c && leb c b'9'

-- The digits, without a bound; none if there is a character that is no digit.
unfoldable pub parse_nat : ℕ → String → Option ℕ
parse_nat acc String.[] = some acc
parse_nat acc (String.◌∷◌ c s) =
    let rest = parse_nat (10 * acc + (code c - b'0')) s in if is_digit (code c) then rest else none

unfoldable pub parse_decimal : String → Option ℕ
unfolding parse_nat
parse_decimal String.[] = none
parse_decimal (String.◌∷◌ c s) = parse_nat 0 (String.◌∷◌ c s)

-- What strconv.ParseInt returns beside a nil or another error: a value out of range is replaced by
-- the nearest one, and a text that is no number by zero.
pub data Parsed : Type 0 where
  exact clamped : ℤ → Parsed
  no_number : Parsed

abbrev signed : Bool → ℕ → Parsed
signed false n = if ltb n half_range then exact (pos n) else clamped (pos (half_range - 1))
signed true zero = exact (pos 0)
signed true (suc n) =
    if ltb n half_range then exact (negsuc n) else clamped (negsuc (half_range - 1))

abbrev parsed_digits : Bool → Option ℕ → Parsed
parsed_digits minus none = no_number
parsed_digits minus (some n) = signed minus n

unfoldable pub parse_int : String → Parsed
unfolding parse_decimal
parse_int String.[] = no_number
parse_int (String.◌∷◌ c s) =
    if nat_eq (code c) b'-'
    then parsed_digits true (parse_decimal s)
    else if nat_eq (code c) b'+'
    then parsed_digits false (parse_decimal s)
    else parsed_digits false (parse_decimal (String.◌∷◌ c s))

-- `n, _ := strconv.ParseInt(...)`.
abbrev pub value_of : Parsed → ℤ
value_of (exact n) = n
value_of (clamped n) = n
value_of no_number = pos 0
