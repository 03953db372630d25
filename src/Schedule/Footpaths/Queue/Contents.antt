-- ===== src/Schedule/Footpaths/Queue/Contents.antt =====
-- internal/schedule/buffer.go, walkQueue: push and pop lose no node.
use multi_agent_travel.Prelude.{
  Any-map, All-of_Any, lt_of_get_elem?, get_elem?_of_lt, Any, ℕ, zero, suc, ◌-◌, ◌/◌, ◌<◌, ◌≡◌,
  refl, sym, ◌∙◌, ◌⊎◌, inl, inr, false, some, List, [], ◌∷◌, ◌++◌, arith, nat_eq, if◌then◌else◌,
  Bool-cases, Option-cases, eq_ℕ, eq_String, length, get_elem?, take, All, All-map, All-get,
}
use multi_agent_travel.Prelude.Int.{leb_ℤ, eq_ℤ}
use multi_agent_travel.Schedule.Footpaths.Queue.{
  WalkNode, push, pop, set_at, swap_nodes, sift_up, sift_down, smallest, dist_at, to_front,
}
use multi_agent_travel.Schedule.Footpaths.Queue.Members.{length-set_at, pop_inj}

get_elem?-set_at :
    (i k : ℕ) (v : WalkNode) (q : List WalkNode)
    → i < length q
    → get_elem? (set_at i v q) k ≡ (if nat_eq i k then some v else get_elem? q k)
unfolding set_at
get_elem?-set_at i k v [] h = absurd (omega arith)
get_elem?-set_at zero zero v (x ∷ xs) h = ground arith
get_elem?-set_at zero (suc k) v (x ∷ xs) h = ground arith
get_elem?-set_at (suc i) zero v (x ∷ xs) h = ground arith
get_elem?-set_at (suc i) (suc k) v (x ∷ xs) h = ground (arith, get_elem?-set_at i k v xs)

some_eq : {a b : WalkNode} → some a ≡ some b → a ≡ b
some_eq q = cc

unset :
    (P : WalkNode → Type 0) (i : ℕ) (v old : WalkNode) (q : List WalkNode)
    → get_elem? q i ≡ some old
    → P old
    → All P (set_at i v q)
    → All P q
unfolding set_at
unset P i v old [] e p h = tt
unset P zero v old (x ∷ xs) e p h = (rw (some_eq e) p, h.1)
unset P (suc i) v old (x ∷ xs) e p h = (h.0, unset P i v old xs e p h.1)

unswap : (P : WalkNode → Type 0) (i j : ℕ) (q : List WalkNode) → All P (swap_nodes i j q) → All P q
unfolding swap_nodes
unswap P i j q h = elim (Option-cases (get_elem? q i)) [
  | inl outside ↦ rw (swap_nodes, outside) at h
  | inr (a, e) ↦ elim (Option-cases (get_elem? q j)) [
    | inl outside ↦ rw (swap_nodes, e, outside) at h
    | inr (b, f) ↦ both a b e f (rw (swap_nodes, e, f) at h)
  ]
]
  where
    both :
        (a b : WalkNode)
        → get_elem? q i ≡ some a
        → get_elem? q j ≡ some b
        → All P (set_at j a (set_at i b q))
        → All P q
    both a b e f k =
        let hi = lt_of_get_elem? q i a e in
        let hj = lt_of_get_elem? q j b f in
        let hj' : j < length (set_at i b q) = rw (length-set_at i b q) hj in
        let at_j : P a =
          All-get P (set_at j a (set_at i b q)) j a k
            (rw (get_elem?-set_at j j a (set_at i b q) hj') (ground arith)) in
        elim (Bool-cases (nat_eq i j)) [
          | inl same ↦
              let ij : i ≡ j = ground arith in
              let ab : a ≡ b = some_eq (sym e ∙ rw ij f) in
              unset P i b a q e at_j (
                unset P j a b (set_at i b q) (rw (get_elem?-set_at i j b q hi, same) refl)
                  (rw (← ab) at_j) k)
          | inr other ↦
              let ji : nat_eq j i ≡ false = ground arith in
              let at_i : P b = All-get P (set_at j a (set_at i b q)) i b k (
                rw (get_elem?-set_at j i a (set_at i b q) hj', ji, get_elem?-set_at i i b q hi)
                  (ground arith)) in
              unset P i b a q e at_j
                (unset P j a b (set_at i b q) (rw (get_elem?-set_at i j b q hi, other) f) at_i k)
        ]

unsift_up :
    (P : WalkNode → Type 0) (fuel i : ℕ) (q : List WalkNode) → All P (sift_up fuel i q) → All P q
unfolding sift_up
unsift_up P zero i q h = h
unsift_up P (suc fuel) i q h = elim (Bool-cases (nat_eq i 0)) [
  | inl root ↦ rw root at h
  | inr below ↦ elim (Bool-cases (leb_ℤ (dist_at q ((i - 1) / 2)) (dist_at q i))) [
    | inl settled ↦ rw (below, settled) at h
    | inr rises ↦
        unswap P ((i - 1) / 2) i q
          (unsift_up P fuel ((i - 1) / 2) (swap_nodes ((i - 1) / 2) i q) (rw (below, rises) at h))
  ]
]

unsift_down :
    (P : WalkNode → Type 0) (fuel i : ℕ) (q : List WalkNode) → All P (sift_down fuel i q) → All P q
unfolding sift_down
unsift_down P zero i q h = h
unsift_down P (suc fuel) i q h = elim (Bool-cases (nat_eq (smallest q i) i)) [
  | inl rests ↦ rw rests at h
  | inr sinks ↦
      unswap P i (smallest q i) q
        (unsift_down P fuel (smallest q i) (swap_nodes i (smallest q i) q) (rw sinks at h))
]

untake :
    (P : WalkNode → Type 0) (m : ℕ) (n : WalkNode) (q : List WalkNode)
    → length q ≡ suc m
    → get_elem? q m ≡ some n
    → P n
    → All P (take m q)
    → All P q
untake P m n [] size e p h = tt
untake P zero n (x ∷ []) size e p h = (rw (some_eq e) p, tt)
untake P zero n (x ∷ y ∷ q) size e p h = absurd (omega arith)
untake P (suc m) n (x ∷ q) size e p h = (h.0, untake P m n q (omega arith) e p h.1)

unfront :
    (P : WalkNode → Type 0) (top : WalkNode) (q : List WalkNode)
    → P top
    → All P (take (length q) (to_front (get_elem? (top ∷ q) (length q)) (top ∷ q)))
    → All P (top ∷ q)
unfolding to_front set_at
unfront P top [] p h = (p, tt)
unfront P top (x ∷ q) p h =
    let (n, e) = get_elem?_of_lt (x ∷ q) (length q) (omega arith) in
    let k : All P (n ∷ take (length q) (x ∷ q)) = rw e at h in
    (p, untake P (length q) n (x ∷ q) refl e k.0 k.1)

Any-subst :
    (R : WalkNode → Type 0) (x : WalkNode) (q : List WalkNode) → Any (λ y. y ≡ x) q → R x → Any R q
Any-subst R x q h r = Any-map (λ y. y ≡ x) R (λ y e. rw e r) q h

Any-use :
    (R : WalkNode → Type 0) (G : Type 0) (q : List WalkNode) → All (λ m. R m → G) q → Any R q → G
Any-use R G [] h k = absurd k
Any-use R G (x ∷ q) h (inl r) = h.0 r
Any-use R G (x ∷ q) h (inr k) = Any-use R G q h.1 k

All-to_any : (R : WalkNode → Type 0) (q : List WalkNode) → All (λ m. R m → Any R q) q
All-to_any R q = All-of_Any (λ m. R m → Any R q) q (λ x there r. Any-subst R x q there r)

All-left_of :
    (P : WalkNode → Type 0) (q : List WalkNode) (n : WalkNode)
    → All P (q ++ (n ∷ []))
    → All P q × P n
All-left_of P [] n h = (tt, h.0)
All-left_of P (x ∷ q) n h = let rest = All-left_of P q n h.1 in ((h.0, rest.0), rest.1)

-- A pushed node is in the queue, with those that were there.
pub Any-push :
    (R : WalkNode → Type 0) (n : WalkNode) (q : List WalkNode) → R n ⊎ Any R q → Any R (push n q)
unfolding push
Any-push R n q h =
    let back =
      All-left_of (λ m. R m → Any R (push n q)) q n
        (unsift_up (λ m. R m → Any R (push n q)) (length q) (length q) (q ++ (n ∷ []))
          (All-to_any R (push n q))) in
    elim h [ inl here ↦ back.1 here | inr there ↦ Any-use R (Any R (push n q)) q back.0 there ]

-- A node of the queue is taken out or left.
pub Any-pop :
    (R : WalkNode → Type 0) (q rest : List WalkNode) (n : WalkNode)
    → pop q ≡ some (n, rest)
    → Any R q
    → R n ⊎ Any R rest
unfolding pop
Any-pop R [] rest n e h = absurd h
Any-pop R (top ∷ q) rest n e h =
    let (same, left) = pop_inj e in
    let P = λ (m : WalkNode). (R m → R n ⊎ Any R rest) in
    let front = take (length q) (to_front (get_elem? (top ∷ q) (length q)) (top ∷ q)) in
    let all : All (λ m. R m → R n ⊎ Any R rest) rest =
      All-map (λ m. R m → Any R rest) (λ m. R m → R n ⊎ Any R rest) (λ m f r. inr (f r)) rest
        (All-to_any R rest) in
    let first : R top → R n ⊎ Any R rest = λ r. inl (rw (← same) r) in
    Any-use R (R n ⊎ Any R rest) (top ∷ q)
      (unfront (λ m. R m → R n ⊎ Any R rest) top q first
        (unsift_down (λ m. R m → R n ⊎ Any R rest) (length q) 0 front (rw left all)))
      h
