-- ===== src/Model/Dates/Digits.antt =====
-- internal/model/types.go: a date that ValidDate accepts is made of digits and dashes.
use multi_agent_travel.Model.Dates.{
  codes, ◌>>=◌, parse_date, check_date, valid_date, parse_digits, parse_dash, parse_codes, Date,
}
use multi_agent_travel.Prelude.{
  ℕ, zero, suc, ◌+◌, ◌-◌, ◌*◌, String, ◌≡◌, refl, inl, inr, true, false, ◌&&◌, Option, none, some,
  List, [], ◌∷◌, arith, leb, nat_eq, Bool-cases, Option-cases, eq_ℕ, eq_String, All,
}
use multi_agent_travel.Prelude.Int.{eq_ℤ}

-- No colon.
abbrev pub IsPlain : ℕ → Type 0
IsPlain c = nat_eq c b':' ≡ false

bind-some :
    {A B : Type 0} (o : Option A) (f : A → Option B) (b : B)
    → (o >>= f) ≡ some b
    → (a : A) × (o ≡ some a) × (f a ≡ some b)
bind-some none f b h = absurd cc
bind-some (some a) f b h = (a, refl, h)

parse_digits-IsPlain :
    (n acc : ℕ) (cs : List ℕ) (v : ℕ) (rest : List ℕ)
    → parse_digits n acc cs ≡ some (v, rest)
    → All IsPlain rest
    → All IsPlain cs
unfolding parse_digits
parse_digits-IsPlain zero acc cs v rest h k = rest_same h
  where
    rest_same : ◌≡◌ {A = Option (ℕ × List ℕ)} (some (acc, cs)) (some (v, rest)) → All IsPlain cs
    rest_same e = let same : rest ≡ cs = cc in rw (← same) k
parse_digits-IsPlain (suc n) acc [] v rest h k = absurd cc
parse_digits-IsPlain (suc n) acc (c ∷ cs) v rest h k =
    elim (Bool-cases (leb b'0' c && leb c b'9')) [
      | inl digit ↦
          let next =
            parse_digits-IsPlain n (10 * acc + (c - b'0')) cs v rest (rw (parse_digits, digit) at h)
              k in
          (ground (arith, digit), next)
      | inr other ↦ absurd (ground (arith, rw (parse_digits, other) at h))
    ]

parse_dash-IsPlain :
    (cs rest : List ℕ) → parse_dash cs ≡ some rest → All IsPlain rest → All IsPlain cs
unfolding parse_dash
parse_dash-IsPlain [] rest h k = absurd cc
parse_dash-IsPlain (c ∷ cs) rest h k = elim (Bool-cases (nat_eq c b'-')) [
  | inl dash ↦ let same : rest ≡ cs = cc (rw dash at h) in (ground (arith, dash), rw (← same) k)
  | inr other ↦ absurd (ground (arith, rw other at h))
]

check_date-end : (y m d : ℕ) (rest : List ℕ) (t : Date) → check_date y m d rest ≡ some t → rest ≡ []
check_date-end y m d [] t h = refl
check_date-end y m d (c ∷ rest) t h = absurd cc

parse_codes-IsPlain : (cs : List ℕ) (t : Date) → parse_codes cs ≡ some t → All IsPlain cs
unfolding parse_codes
parse_codes-IsPlain cs t h =
    let ((y, cs₁), e₁, h₁) = bind-some (parse_digits 4 0 cs) _ t h in
    let (cs₂, e₂, h₂) = bind-some (parse_dash cs₁) _ t h₁ in
    let ((m, cs₃), e₃, h₃) = bind-some (parse_digits 2 0 cs₂) _ t h₂ in
    let (cs₄, e₄, h₄) = bind-some (parse_dash cs₃) _ t h₃ in
    let ((d, rest), e₅, h₅) = bind-some (parse_digits 2 0 cs₄) _ t h₄ in
    let ended : All IsPlain rest = rw (check_date-end y m d rest t h₅) tt in
    parse_digits-IsPlain 4 0 cs y cs₁ e₁ (
      parse_dash-IsPlain cs₁ cs₂ e₂ (
        parse_digits-IsPlain 2 0 cs₂ m cs₃ e₃
          (parse_dash-IsPlain cs₃ cs₄ e₄ (parse_digits-IsPlain 2 0 cs₄ d rest e₅ ended))))

pub valid_date-IsPlain : (s : String) → valid_date s ≡ true → All IsPlain (codes s)
unfolding valid_date parse_date
valid_date-IsPlain s h = elim (Option-cases (parse_codes (codes s))) [
  | inl bad ↦ absurd (ground (arith, rw (valid_date, bad) at h))
  | inr (t, e) ↦ parse_codes-IsPlain (codes s) t e
]
