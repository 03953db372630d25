-- ===== src/Breaker/Runs.antt =====
-- internal/breaker/breaker.go: sequences of calls.
use multi_agent_travel.Breaker.Invariant.{failure-IsValid, success-IsValid, allow-IsValid, IsValid}
use multi_agent_travel.Breaker.{success, closed, failure, allow, Breaker}
use multi_agent_travel.Prelude.{
  ℕ, zero, suc, ◌+◌, ◌≤◌, ◌<◌, ◌≡◌, refl, ◌≢◌, inl, inr, true, false, List, [], ◌∷◌, arith,
  if◌then◌else◌, Bool-cases, eq_ℕ, eq_String,
}
use multi_agent_travel.Prelude.Int.{ℤ, eq_ℤ}

-- A caller asks, then reports how its operation went; calls of several callers interleave.
pub data Call : Type 0 where
  ask succeed fail : ℤ → Call

unfoldable pub run : Breaker → List Call → Breaker
run b [] = b
run b (ask now ∷ cs) = run (allow b now).0 cs
run b (succeed now ∷ cs) = run (success b) cs
run b (fail now ∷ cs) = run (failure b now) cs

-- How many of the callers that ask one after the other are admitted.
unfoldable pub admitted : Breaker → List ℤ → ℕ
admitted b [] = 0
admitted b (now ∷ nows) =
    let rest = admitted (allow b now).0 nows in if (allow b now).1 then suc rest else rest

-- Whatever calls of whatever callers reach a valid breaker, in whatever order and at whatever times,
-- it is valid at the end: a probe is out exactly while it is half open, and it is closed exactly
-- while it has counted fewer failures than the threshold.
pub run-IsValid : (cs : List Call) (b : Breaker) → IsValid b → IsValid (run b cs)
unfolding run
run-IsValid [] b v = v
run-IsValid (ask now ∷ cs) b v = run-IsValid cs (allow b now).0 (allow-IsValid b now v)
run-IsValid (succeed now ∷ cs) b v = run-IsValid cs (success b) (success-IsValid b v)
run-IsValid (fail now ∷ cs) b v = run-IsValid cs (failure b now) (failure-IsValid b now v)

refused_probing :
    (b : Breaker) (now : ℤ)
    → IsValid b
    → b.probing ≡ true
    → ((allow b now).0 ≡ b) × ((allow b now).1 ≡ false)
unfolding allow
refused_probing b now v p = ground (arith, v.probing_half)

-- While a probe is out, nobody else is admitted, however long the breaker waits.
pub probing-admitted :
    (nows : List ℤ) (b : Breaker) → IsValid b → b.probing ≡ true → admitted b nows ≡ 0
unfolding admitted
probing-admitted [] b v p = refl
probing-admitted (now ∷ nows) b v p =
    let r = refused_probing b now v p in rw (r.1, r.0) (probing-admitted nows b v p)

refused_same : (b : Breaker) (now : ℤ) → (allow b now).1 ≡ false → (allow b now).0 ≡ b
unfolding allow
refused_same b now h = ground arith

passed_probing :
    (b : Breaker) (now : ℤ)
    → b.state ≢ closed
    → (allow b now).1 ≡ true
    → (allow b now).0.probing ≡ true
unfolding allow
passed_probing b now o h = ground arith

-- A valid breaker that is not closed admits at most one of the callers that ask one after the other,
-- at whatever times, before any of them reports.
pub admitted_once :
    (nows : List ℤ) (b : Breaker) → IsValid b → b.state ≢ closed → admitted b nows ≤ 1
unfolding admitted
admitted_once [] b v o = omega arith
admitted_once (now ∷ nows) b v o = elim (Bool-cases (allow b now).1) [
  | inr refused ↦ rw (refused, refused_same b now refused) (admitted_once nows b v o)
  | inl passed ↦
      let none_left =
        probing-admitted nows (allow b now).0 (allow-IsValid b now v)
          (passed_probing b now o passed) in
      rw (passed, none_left) (omega arith)
]

-- The failures reported to a closed breaker, all at one time.
abbrev pub fail_times : ℕ → ℤ → Breaker → Breaker
fail_times zero now b = b
fail_times (suc n) now b = fail_times n now (failure b now)

pub fail_times-closed :
    (n : ℕ) (now : ℤ) (b : Breaker)
    → b.state ≡ closed
    → b.failures + n < b.threshold
    → ((fail_times n now b).state ≡ closed) × ((fail_times n now b).failures ≡ b.failures + n)
unfolding failure
fail_times-closed zero now b c h = (c, omega arith)
fail_times-closed (suc n) now b c h =
    let next = fail_times-closed n now (failure b now) (ground arith) (ground arith) in
    (next.0, ground (arith, next.1))
