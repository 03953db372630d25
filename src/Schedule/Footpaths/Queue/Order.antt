-- ===== src/Schedule/Footpaths/Queue/Order.antt =====
-- internal/schedule/buffer.go, walkQueue: the heap order, and the loop of push.
use multi_agent_travel.Prelude.{
  inr, inl, Bool-cases, true, get_elem?_of_lt, ℕ, zero, suc, ◌-◌, ◌/◌, ◌≤◌, ◌<◌, ◌≡◌, refl, false,
  some, List, [], ◌∷◌, arith, nat_eq, if◌then◌else◌, eq_ℕ, eq_String, length, get_elem?,
}
use multi_agent_travel.Prelude.Int.{leb_ℤ, ◌≤ℤ◌, eq_ℤ}
use multi_agent_travel.Schedule.Footpaths.Queue.{sift_up, WalkNode, set_at, swap_nodes, dist_at}
use multi_agent_travel.Schedule.Footpaths.Queue.Members.{length-swap_nodes, length-set_at}

pub dist_at-set_at :
    (i k : ℕ) (v : WalkNode) (q : List WalkNode)
    → i < length q
    → dist_at (set_at i v q) k ≡ (if nat_eq i k then v.dist else dist_at q k)
unfolding set_at dist_at
dist_at-set_at i k v [] h = absurd (omega arith)
dist_at-set_at zero zero v (x ∷ xs) h = ground arith
dist_at-set_at zero (suc k) v (x ∷ xs) h = ground arith
dist_at-set_at (suc i) zero v (x ∷ xs) h = ground arith
dist_at-set_at (suc i) (suc k) v (x ∷ xs) h = ground (arith, dist_at-set_at i k v xs)

dist_at-found :
    (q : List WalkNode) (i : ℕ) (n : WalkNode) → get_elem? q i ≡ some n → dist_at q i ≡ n.dist
unfolding dist_at
dist_at-found q i n e = rw (dist_at, e) refl

pub dist_at-swap_nodes :
    (i j k : ℕ) (q : List WalkNode)
    → i < length q
    → j < length q
    → dist_at (swap_nodes i j q) k
      ≡ (if nat_eq j k then dist_at q i else if nat_eq i k then dist_at q j else dist_at q k)
unfolding swap_nodes
dist_at-swap_nodes i j k q hi hj =
    let (a, e) = get_elem?_of_lt q i hi in
    let (b, f) = get_elem?_of_lt q j hj in
    rw (swap_nodes, e, f)
      (rw
        (
          dist_at-set_at j k a (set_at i b q) (rw (length-set_at i b q) hj),
          dist_at-set_at i k b q hi,
          dist_at-found q i a e,
          dist_at-found q j b f,
        )
        refl)

abbrev pub parent : ℕ → ℕ
parent c = (c - 1) / 2

-- No node is nearer than its parent.
abbrev pub IsHeap : List WalkNode → Type 0
IsHeap q = (c : ℕ) → 1 ≤ c → c < length q → dist_at q (parent c) ≤ℤ dist_at q c

-- A heap but for the node at one position, which may be nearer than its parent.
pub record IsRising (q : List WalkNode) (i : ℕ) : Type 0 where
  pub ordered :
      (c : ℕ) → 1 ≤ c → c < length q → nat_eq c i ≡ false → dist_at q (parent c) ≤ℤ dist_at q c
  pub spanned :
      (c : ℕ) → 1 ≤ c → c < length q → parent c ≡ i → 1 ≤ i → dist_at q (parent i) ≤ℤ dist_at q c

swap-IsRising :
    (q : List WalkNode) (i : ℕ)
    → 1 ≤ i
    → i < length q
    → leb_ℤ (dist_at q (parent i)) (dist_at q i) ≡ false
    → IsRising q i
    → IsRising (swap_nodes (parent i) i q) (parent i)
swap-IsRising q i low high nearer h =
    let p = parent i in
    let size = length-swap_nodes p i q in
    let hp : p < length q = omega arith in
    record {
      ordered = λ c above below other.
          let old = h.ordered c above (omega (arith, size)) in
          let span = h.spanned c above (omega (arith, size)) in
          let here = dist_at-swap_nodes p i c q hp high in
          let there = dist_at-swap_nodes p i (parent c) q hp high in
          rw (here, there) (ground arith);
      spanned = λ c above below child deep.
          let old = h.ordered c above (omega (arith, size)) in
          let up = h.ordered p deep (omega arith) (ground arith) in
          let here = dist_at-swap_nodes p i c q hp high in
          let there = dist_at-swap_nodes p i (parent p) q hp high in
          rw (here, there) (ground arith);
    }

pub sift_up-IsHeap :
    (fuel i : ℕ) (q : List WalkNode)
    → i ≤ fuel
    → i < length q
    → IsRising q i
    → IsHeap (sift_up fuel i q)
unfolding sift_up
sift_up-IsHeap zero i q small high h = λ c above below. h.ordered c above below (ground arith)
sift_up-IsHeap (suc fuel) i q small high h = elim (Bool-cases (nat_eq i 0)) [
  | inl root ↦ rw root (λ c above below. h.ordered c above below (ground arith))
  | inr low ↦ elim (Bool-cases (leb_ℤ (dist_at q (parent i)) (dist_at q i))) [
    | inl rests ↦ rw (low, rests) (settled rests)
    | inr rises ↦
        let positive : 1 ≤ i = ground arith in
        rw (low, rises)
          (sift_up-IsHeap fuel (parent i) (swap_nodes (parent i) i q) (omega arith)
            (omega (arith, length-swap_nodes (parent i) i q))
            (swap-IsRising q i positive high rises h))
  ]
]
  where
    settled : leb_ℤ (dist_at q (parent i)) (dist_at q i) ≡ true → IsHeap q
    settled rests c above below = elim (Bool-cases (nat_eq c i)) [
      | inl same ↦ let e : c ≡ i = ground arith in rw e (ground arith)
      | inr other ↦ h.ordered c above below other
    ]
