-- ===== src/Raptor/Validator/Verdicts.antt =====
-- internal/raptor/validator.go: what Validate returns, while seats can be checked and while not.
use multi_agent_travel.Raptor.Validator.Answers.{first_results}
use multi_agent_travel.Model.{JourneyPath}
use multi_agent_travel.Raptor.Validator.{Validator, truncate, is_full, survivors}
use multi_agent_travel.Prelude.{
  keep_if, ℕ, zero, suc, ◌+◌, ◌≤◌, ◌≡◌, refl, sym, ap, inl, inr, Bool, true, false, List, [], ◌∷◌,
  arith, Bool-cases, eq_ℕ, eq_String, length, take,
}
use multi_agent_travel.Prelude.Int.{ℤ, pos, negsuc, pos_part, ltb_ℤ, eq_ℤ}

pub take-nil : {A : Type 0} (n : ℕ) → take {A = A} n [] ≡ []
take-nil zero = refl
take-nil (suc n) = refl

take-all : {A : Type 0} (n : ℕ) (xs : List A) → length xs ≤ n → take n xs ≡ xs
take-all n [] h = take-nil n
take-all zero (x ∷ xs) h = absurd (omega arith)
take-all (suc n) (x ∷ xs) h = ap (◌∷◌ x) (take-all n xs (omega arith))

pos_part_of_not_ltb :
    (m : ℤ) (n : ℕ) → ltb_ℤ (pos 0) m ≡ true → ltb_ℤ m (pos n) ≡ false → n ≤ pos_part m
pos_part_of_not_ltb (pos m) n h k = ground arith
pos_part_of_not_ltb (negsuc m) n h k = ground arith

survivors-unlimited :
    (max_results : ℤ) (ok : JourneyPath → Bool) (n : ℕ) (ps : List JourneyPath)
    → ltb_ℤ (pos 0) max_results ≡ false
    → survivors max_results ok n ps ≡ keep_if ok ps
unfolding survivors
survivors-unlimited max_results ok n [] h = refl
survivors-unlimited max_results ok n (p ∷ ps) h = elim (Bool-cases (ok p)) [
  | inl good ↦ rw (good, h) (ap (◌∷◌ p) (survivors-unlimited max_results ok (n + 1) ps h))
  | inr bad ↦ rw bad (survivors-unlimited max_results ok n ps h)
]

survivors-limited :
    (m : ℕ) (ok : JourneyPath → Bool) (n left : ℕ) (ps : List JourneyPath)
    → m ≡ n + suc left
    → survivors (pos m) ok n ps ≡ take (suc left) (keep_if ok ps)
unfolding survivors
survivors-limited m ok n left [] h = refl
survivors-limited m ok n zero (p ∷ ps) h = elim (Bool-cases (ok p)) [
  | inr bad ↦ rw bad (survivors-limited m ok n zero ps h)
  | inl good ↦ let full : is_full (pos m) (n + 1) ≡ true = ground arith in rw (good, full)
]
survivors-limited m ok n (suc k) (p ∷ ps) h = elim (Bool-cases (ok p)) [
  | inr bad ↦ rw bad (survivors-limited m ok n (suc k) ps h)
  | inl good ↦
      let open_ : is_full (pos m) (n + 1) ≡ false = ground arith in
      let rest = survivors-limited m ok (n + 1) k ps (omega arith) in
      rw (good, open_) (ap (◌∷◌ p) rest)
]

-- Whatever the limit, the loop keeps the first MaxResults of the journeys that pass.
pub survivors-first_results :
    (max_results : ℤ) (ok : JourneyPath → Bool) (ps : List JourneyPath)
    → survivors max_results ok 0 ps ≡ first_results max_results (keep_if ok ps)
survivors-first_results (pos zero) ok ps = survivors-unlimited (pos 0) ok 0 ps refl
survivors-first_results (pos (suc m)) ok ps =
    let limited : ltb_ℤ (pos 0) (pos (suc m)) ≡ true = ground arith in
    rw limited (survivors-limited (suc m) ok 0 m ps (omega arith))
survivors-first_results (negsuc m) ok ps =
    let unlimited : ltb_ℤ (pos 0) (negsuc m) ≡ false = ground arith in
    rw unlimited (survivors-unlimited (negsuc m) ok 0 ps unlimited)

pub truncate-first_results :
    (v : Validator) (ps : List JourneyPath) → truncate v ps ≡ first_results v.cfg.max_results ps
unfolding truncate
truncate-first_results v ps = elim (Bool-cases (ltb_ℤ (pos 0) v.cfg.max_results)) [
  | inr unlimited ↦ rw unlimited
  | inl limited ↦ elim (Bool-cases (ltb_ℤ v.cfg.max_results (pos (length ps)))) [
    | inl longer ↦ rw (limited, longer)
    | inr short ↦
        let fits : length ps ≤ pos_part v.cfg.max_results =
          pos_part_of_not_ltb v.cfg.max_results (length ps) limited short in
        rw (limited, short) (sym (take-all (pos_part v.cfg.max_results) ps fits))
  ]
]
