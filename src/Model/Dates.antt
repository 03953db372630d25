-- ===== src/Model/Dates.antt =====
-- internal/model/types.go: DateLayout and ValidDate, and what the program uses of Go's time package
-- on dates: time.Parse and Format with the layout 2006-01-02, and AddDate by days. A year is an
-- integer, since the day before 0000-01-01 is a date of the year -1.
pub mod Digits
use Prim.Native.Char.{code}
use Prim.Native.String.{◌++◌ as append}
use multi_agent_travel.Prelude.{
  ℕ, zero, suc, ◌+◌, ◌-◌, ◌*◌, ◌/◌, ◌%◌, String, Bool, true, false, List, [], ◌∷◌, Option, none,
  some, if◌then◌else◌, ltb, leb, nat_eq, ◌&&◌, ◌||◌, not, is_empty,
}
use multi_agent_travel.Prelude.Int.{ℤ, pos, pos_part, neg_part, ◌+ℤ◌, ◌-ℤ◌}

pub record Date : Type 0 where
  pub year : ℤ
  pub month : ℕ
  pub day : ℕ

abbrev pub codes : String → List ℕ
codes String.[] = []
codes (String.◌∷◌ c s) = code c ∷ codes s

abbrev pub divides : ℕ → ℕ → Bool
divides k n = nat_eq (n % k) 0

unfoldable pub is_leap : ℤ → Bool
is_leap y = let n = pos_part y + neg_part y in divides 4 n && (not (divides 100 n) || divides 400 n)

unfoldable pub days_in : ℕ → ℤ → ℕ
unfolding is_leap
days_in m y =
    if nat_eq m 2
    then (if is_leap y then 29 else 28)
    else if nat_eq m 4 || nat_eq m 6 || nat_eq m 9 || nat_eq m 11
    then 30
    else 31

abbrev pub digit? : ℕ → Option ℕ
digit? c = if leb b'0' c && leb c b'9' then some (c - b'0') else none

-- A fixed number of digits, and the rest of the text.
unfoldable pub parse_digits : ℕ → ℕ → List ℕ → Option (ℕ × List ℕ)
parse_digits zero acc cs = some (acc, cs)
parse_digits (suc n) acc [] = none
parse_digits (suc n) acc (c ∷ cs) = elim (digit? c) [
  | none ↦ none
  | some d ↦ parse_digits n (10 * acc + d) cs
]

unfoldable pub parse_dash : List ℕ → Option (List ℕ)
parse_dash [] = none
parse_dash (c ∷ cs) = if nat_eq c b'-' then some cs else none

infixl 5 ◌>>=◌
abbrev ◌>>=◌ {ℓ κ} : {A : Type ℓ} {B : Type κ} → Option A → (A → Option B) → Option B
none >>= f = none
some a >>= f = f a

abbrev pub check_date : ℕ → ℕ → ℕ → List ℕ → Option Date
check_date y m d rest =
    if is_empty rest && leb 1 m && leb m 12 && leb 1 d && leb d (days_in m (pos y))
    then some (record { year = pos y; month = m; day = d })
    else none

unfoldable pub parse_codes : List ℕ → Option Date
unfolding parse_digits parse_dash days_in
parse_codes cs = do
  (y, cs₁) ← parse_digits 4 0 cs
  cs₂ ← parse_dash cs₁
  (m, cs₃) ← parse_digits 2 0 cs₂
  cs₄ ← parse_dash cs₃
  (d, rest) ← parse_digits 2 0 cs₄
  check_date y m d rest

-- time.Parse(DateLayout, s); `none` is an error.
unfoldable pub parse_date : String → Option Date
unfolding parse_codes
parse_date s = parse_codes (codes s)

unfoldable pub valid_date : String → Bool
unfolding parse_date
valid_date s = elim (parse_date s) [ none ↦ false | some d ↦ true ]

unfoldable pub next_day : Date → Date
unfolding days_in ◌+ℤ◌
next_day t =
    if ltb t.day (days_in t.month t.year)
    then record t { day = t.day + 1 }
    else if ltb t.month 12
    then record t { month = t.month + 1; day = 1 }
    else record { year = t.year +ℤ pos 1; month = 1; day = 1 }

unfoldable pub previous_day : Date → Date
unfolding days_in ◌-ℤ◌
previous_day t =
    if ltb 1 t.day
    then record t { day = t.day - 1 }
    else if ltb 1 t.month
    then record t { month = t.month - 1; day = days_in (t.month - 1) t.year }
    else record { year = t.year -ℤ pos 1; month = 12; day = 31 }

abbrev digit_char : ℕ → String
digit_char zero = "0"
digit_char (suc zero) = "1"
digit_char (suc (suc zero)) = "2"
digit_char (suc (suc (suc zero))) = "3"
digit_char (suc (suc (suc (suc zero)))) = "4"
digit_char (suc (suc (suc (suc (suc zero))))) = "5"
digit_char (suc (suc (suc (suc (suc (suc zero)))))) = "6"
digit_char (suc (suc (suc (suc (suc (suc (suc zero))))))) = "7"
digit_char (suc (suc (suc (suc (suc (suc (suc (suc zero)))))))) = "8"
digit_char _ = "9"

-- At least `width` decimal digits of n, in front of `rest`; the fuel bounds the digits.
unfoldable pub show_padded : ℕ → ℕ → ℕ → String → String
show_padded zero width n rest = rest
show_padded (suc fuel) width n rest =
    let shown = show_padded fuel (width - 1) (n / 10) (append (digit_char (n % 10)) rest) in
    if nat_eq n 0 && nat_eq width 0 then rest else shown

unfoldable pub format_date : Date → String
unfolding show_padded
format_date t =
    let n = pos_part t.year + neg_part t.year in
    let tail = append "-" (show_padded 20 2 t.month (append "-" (show_padded 20 2 t.day ""))) in
    let digits = show_padded 20 4 n tail in
    if ltb 0 (neg_part t.year) then append "-" digits else digits

-- The dates of `count` days in a row.
unfoldable pub days_from : ℕ → Date → List String
days_from zero t = []
days_from (suc count) t = format_date t ∷ days_from count (next_day t)

-- internal/raptor/engine.go: computeAllowedDates, from the day before the date through the window.
unfoldable pub compute_allowed_dates : String → ℤ → List String
unfolding parse_date days_from format_date next_day previous_day
compute_allowed_dates date window_days = elim (parse_date date) [
  | none ↦ date ∷ []
  | some t ↦ days_from (pos_part window_days + 2) (previous_day t)
]
