-- ===== src/Schedule/Footpaths/Queue/Members.antt =====
-- internal/schedule/buffer.go, walkQueue: a push adds one node and a pop takes one out.
use multi_agent_travel.Prelude.{
  All-take, length-append, ℕ, zero, suc, ◌-◌, ◌/◌, ◌≤◌, ◌≡◌, refl, sym, ap, ◌∙◌, inl, inr, Option,
  none, some, List, [], ◌∷◌, ◌++◌, arith, nat_eq, Bool-cases, Option-cases, eq_ℕ, eq_String, length,
  get_elem?, take, All, All-get, All-append,
}
use multi_agent_travel.Prelude.Int.{leb_ℤ, eq_ℤ}
use multi_agent_travel.Schedule.Footpaths.Queue.{
  to_front, WalkNode, push, pop, set_at, swap_nodes, sift_up, sift_down, smallest, dist_at,
}

All-set_at :
    (P : WalkNode → Type 0) (i : ℕ) (v : WalkNode) (q : List WalkNode)
    → P v
    → All P q
    → All P (set_at i v q)
unfolding set_at
All-set_at P i v [] h k = tt
All-set_at P zero v (x ∷ xs) h k = (h, k.1)
All-set_at P (suc i) v (x ∷ xs) h k = (k.0, All-set_at P i v xs h k.1)

pub length-set_at : (i : ℕ) (v : WalkNode) (q : List WalkNode) → length (set_at i v q) ≡ length q
unfolding set_at
length-set_at i v [] = refl
length-set_at zero v (x ∷ xs) = refl
length-set_at (suc i) v (x ∷ xs) = ap suc (length-set_at i v xs)

All-swap_nodes :
    (P : WalkNode → Type 0) (i j : ℕ) (q : List WalkNode) → All P q → All P (swap_nodes i j q)
unfolding swap_nodes
All-swap_nodes P i j q h = elim (Option-cases (get_elem? q i)) [
  | inl outside ↦ rw (swap_nodes, outside) h
  | inr (a, e) ↦ elim (Option-cases (get_elem? q j)) [
    | inl outside ↦ rw (swap_nodes, e, outside) h
    | inr (b, f) ↦
        rw (swap_nodes, e, f)
          (All-set_at P j a (set_at i b q) (All-get P q i a h e)
            (All-set_at P i b q (All-get P q j b h f) h))
  ]
]

pub length-swap_nodes : (i j : ℕ) (q : List WalkNode) → length (swap_nodes i j q) ≡ length q
unfolding swap_nodes
length-swap_nodes i j q = elim (Option-cases (get_elem? q i)) [
  | inl outside ↦ rw (swap_nodes, outside) refl
  | inr (a, e) ↦ elim (Option-cases (get_elem? q j)) [
    | inl outside ↦ rw (swap_nodes, e, outside) refl
    | inr (b, f) ↦ rw (swap_nodes, e, f) (length-set_at j a (set_at i b q) ∙ length-set_at i b q)
  ]
]

All-sift_up :
    (P : WalkNode → Type 0) (fuel i : ℕ) (q : List WalkNode) → All P q → All P (sift_up fuel i q)
unfolding sift_up
All-sift_up P zero i q h = h
All-sift_up P (suc fuel) i q h = elim (Bool-cases (nat_eq i 0)) [
  | inl root ↦ rw root h
  | inr below ↦ elim (Bool-cases (leb_ℤ (dist_at q ((i - 1) / 2)) (dist_at q i))) [
    | inl settled ↦ rw (below, settled) h
    | inr rises ↦
        rw (below, rises)
          (All-sift_up P fuel ((i - 1) / 2) (swap_nodes ((i - 1) / 2) i q)
            (All-swap_nodes P ((i - 1) / 2) i q h))
  ]
]

pub length-sift_up : (fuel i : ℕ) (q : List WalkNode) → length (sift_up fuel i q) ≡ length q
unfolding sift_up
length-sift_up zero i q = refl
length-sift_up (suc fuel) i q = elim (Bool-cases (nat_eq i 0)) [
  | inl root ↦ rw root refl
  | inr below ↦ elim (Bool-cases (leb_ℤ (dist_at q ((i - 1) / 2)) (dist_at q i))) [
    | inl settled ↦ rw (below, settled) refl
    | inr rises ↦
        rw (below, rises)
          (length-sift_up fuel ((i - 1) / 2) (swap_nodes ((i - 1) / 2) i q)
            ∙ length-swap_nodes ((i - 1) / 2) i q)
  ]
]

All-sift_down :
    (P : WalkNode → Type 0) (fuel i : ℕ) (q : List WalkNode) → All P q → All P (sift_down fuel i q)
unfolding sift_down
All-sift_down P zero i q h = h
All-sift_down P (suc fuel) i q h = elim (Bool-cases (nat_eq (smallest q i) i)) [
  | inl rests ↦ rw rests h
  | inr sinks ↦ rw sinks (
      All-sift_down P fuel (smallest q i) (swap_nodes i (smallest q i) q)
        (All-swap_nodes P i (smallest q i) q h))
]

pub length-sift_down : (fuel i : ℕ) (q : List WalkNode) → length (sift_down fuel i q) ≡ length q
unfolding sift_down
length-sift_down zero i q = refl
length-sift_down (suc fuel) i q = elim (Bool-cases (nat_eq (smallest q i) i)) [
  | inl rests ↦ rw rests refl
  | inr sinks ↦ rw sinks (
      length-sift_down fuel (smallest q i) (swap_nodes i (smallest q i) q)
      ∙ length-swap_nodes i (smallest q i) q)
]

pub All-push :
    (P : WalkNode → Type 0) (n : WalkNode) (q : List WalkNode) → P n → All P q → All P (push n q)
unfolding push
All-push P n q h k =
    All-sift_up P (length q) (length q) (q ++ (n ∷ [])) (All-append P q (n ∷ []) k (h, tt))

pub length-push : (n : WalkNode) (q : List WalkNode) → length (push n q) ≡ suc (length q)
unfolding push
length-push n q =
    omega (arith, length-sift_up (length q) (length q) (q ++ (n ∷ [])), length-append q (n ∷ []))

pub length-take_le : {A : Type 0} → (n : ℕ) (xs : List A) → n ≤ length xs → length (take n xs) ≡ n
length-take_le zero xs h = refl
length-take_le (suc n) [] h = absurd (omega arith)
length-take_le (suc n) (x ∷ xs) h = ap suc (length-take_le n xs (omega arith))

to_front-keeps :
    (P : WalkNode → Type 0) (o : Option WalkNode) (q : List WalkNode) (i : ℕ)
    → get_elem? q i ≡ o
    → All P q
    → All P (to_front o q) × (length (to_front o q) ≡ length q)
unfolding to_front
to_front-keeps P none q i e h = (h, refl)
to_front-keeps P (some n) q i e h =
    (All-set_at P 0 n q (All-get P q i n h e) h, length-set_at 0 n q)

pub pop_inj :
    {a b : WalkNode} {xs ys : List WalkNode}
    → ◌≡◌ {A = Option (WalkNode × List WalkNode)} (some (a, xs)) (some (b, ys))
    → (a ≡ b) × (xs ≡ ys)
pop_inj e = (cc, cc)

-- A pop takes out one node.
pub pop-keeps :
    (P : WalkNode → Type 0) (q rest : List WalkNode) (n : WalkNode)
    → pop q ≡ some (n, rest)
    → All P q
    → P n × All P rest × (length q ≡ suc (length rest))
unfolding pop
pop-keeps P [] rest n e h = absurd cc e
pop-keeps P (top ∷ q) rest n e h =
    let front = to_front (get_elem? (top ∷ q) (length q)) (top ∷ q) in
    let (all, size) = to_front-keeps P _ (top ∷ q) (length q) refl h in
    let (same, left) = pop_inj e in
    let count = length-sift_down (length q) 0 (take (length q) front) in
    let taken : length (take (length q) front) ≡ length q =
      length-take_le (length q) front (omega (arith, size)) in
    (
      rw (← same) h.0,
      rw (← left)
          (All-sift_down P (length q) 0 (take (length q) front) (All-take P (length q) front all)),
      rw (← left) (ap suc (sym (count ∙ taken))),
    )
