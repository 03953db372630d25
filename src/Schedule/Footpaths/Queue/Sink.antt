-- ===== src/Schedule/Footpaths/Queue/Sink.antt =====
-- internal/schedule/buffer.go, walkQueue: the loop of pop makes a heap.
use multi_agent_travel.Prelude.{
  ℕ, zero, suc, ◌+◌, ◌*◌, ◌≤◌, ◌<◌, ◌≡◌, refl, ◌⊎◌, inl, inr, true, false, ◌&&◌, List, arith, ltb,
  nat_eq, Bool-cases, eq_ℕ, eq_String, length,
}
use multi_agent_travel.Prelude.Int.{ltb_ℤ, ◌≤ℤ◌, eq_ℤ}
use multi_agent_travel.Schedule.Footpaths.Queue.{
  WalkNode, swap_nodes, sift_down, smallest, dist_at, smaller_of,
}
use multi_agent_travel.Schedule.Footpaths.Queue.Members.{length-swap_nodes}
use multi_agent_travel.Schedule.Footpaths.Queue.Order.{parent, IsHeap, dist_at-swap_nodes}

-- A heap but for the node at one position, which may be further than its children.
pub record IsSinking (q : List WalkNode) (i : ℕ) : Type 0 where
  pub ordered :
      (c : ℕ)
      → 1 ≤ c
      → c < length q
      → nat_eq (parent c) i ≡ false
      → dist_at q (parent c) ≤ℤ dist_at q c
  pub spanned :
      (c : ℕ) → 1 ≤ c → c < length q → parent c ≡ i → 1 ≤ i → dist_at q (parent i) ≤ℤ dist_at q c

-- The nearest of a node and its children.
record IsSmallest (q : List WalkNode) (i s : ℕ) : Type 0 where
  from_family : (s ≡ i) ⊎ ((1 ≤ s) × (parent s ≡ i) × (s < length q))
  nearest : (c : ℕ) → 1 ≤ c → c < length q → parent c ≡ i → dist_at q s ≤ℤ dist_at q c
  no_further : dist_at q s ≤ℤ dist_at q i

child_cases : (c i : ℕ) → 1 ≤ c → parent c ≡ i → (c ≡ 2 * i + 1) ⊎ (c ≡ 2 * i + 2)
child_cases c i h e = ground arith

smaller_of-cases :
    (q : List WalkNode) (c b : ℕ)
    → ((smaller_of q c b ≡ c) × (c < length q) × (dist_at q c ≤ℤ dist_at q b))
      ⊎ ((smaller_of q c b ≡ b) × (c < length q → dist_at q b ≤ℤ dist_at q c))
smaller_of-cases q c b = elim (Bool-cases (ltb c (length q) && ltb_ℤ (dist_at q c) (dist_at q b))) [
  | inl less ↦ rw less (inl (refl, ground arith, ground arith))
  | inr more ↦ rw more (inr (refl, λ inside. ground arith))
]

family-IsSmallest :
    (q : List WalkNode) (i s : ℕ)
    → (s ≡ i) ⊎ ((1 ≤ s) × (parent s ≡ i) × (s < length q))
    → (2 * i + 1 < length q → dist_at q s ≤ℤ dist_at q (2 * i + 1))
    → (2 * i + 2 < length q → dist_at q s ≤ℤ dist_at q (2 * i + 2))
    → dist_at q s ≤ℤ dist_at q i
    → IsSmallest q i s
family-IsSmallest q i s family left right self = record {
  from_family = family;
  nearest = λ c above below child. elim (child_cases c i above child) [
    | inl e ↦ rw e (left (rw e at below))
    | inr e ↦ rw e (right (rw e at below))
  ];
  no_further = self;
}

smallest-IsSmallest : (q : List WalkNode) (i : ℕ) → IsSmallest q i (smallest q i)
unfolding smallest
smallest-IsSmallest q i =
    let left = 2 * i + 1 in
    let right = 2 * i + 2 in
    let left_child : (1 ≤ left) × (parent left ≡ i) = (omega arith, ground arith) in
    let right_child : (1 ≤ right) × (parent right ≡ i) = (omega arith, ground arith) in
    elim (smaller_of-cases q left i) [
      | inl (e, inside, first) ↦ elim (smaller_of-cases q right left) [
        | inl (f, within, second) ↦
            rw (smallest, e, f)
              (family-IsSmallest q i right (inr (right_child.0, right_child.1, within))
                (λ h. second) (λ h. ground arith) (ground arith))
        | inr (f, second) ↦
            rw (smallest, e, f)
              (family-IsSmallest q i left (inr (left_child.0, left_child.1, inside))
                (λ h. ground arith) second first)
      ]
      | inr (e, first) ↦ elim (smaller_of-cases q right i) [
        | inl (f, within, second) ↦
            rw (smallest, e, f)
              (family-IsSmallest q i right (inr (right_child.0, right_child.1, within))
                (λ h. ground (arith, first h)) (λ h. ground arith) second)
        | inr (f, second) ↦
            rw (smallest, e, f) (family-IsSmallest q i i (inl refl) first second (ground arith))
      ]
    ]

swap-IsSinking :
    (q : List WalkNode) (i s : ℕ)
    → i < length q
    → 1 ≤ s
    → s < length q
    → parent s ≡ i
    → ((c : ℕ) → 1 ≤ c → c < length q → parent c ≡ i → dist_at q s ≤ℤ dist_at q c)
    → dist_at q s ≤ℤ dist_at q i
    → IsSinking q i
    → IsSinking (swap_nodes i s q) s
swap-IsSinking q i s hi low hs child near below_i h =
    let size = length-swap_nodes i s q in
    record {
      ordered = λ c above below other.
          let old = h.ordered c above (omega (arith, size)) in
          let span = h.spanned s low hs child in
          let sib = near c above (omega (arith, size)) in
          let here = dist_at-swap_nodes i s c q hi hs in
          let there = dist_at-swap_nodes i s (parent c) q hi hs in rw (here, there) (ground arith);
      spanned = λ c above below grand deep.
          let old = h.ordered c above (omega (arith, size)) (ground arith) in
          let here = dist_at-swap_nodes i s c q hi hs in
          let there = dist_at-swap_nodes i s (parent s) q hi hs in rw (here, there) (ground arith);
    }

pub sift_down-IsHeap :
    (fuel i : ℕ) (q : List WalkNode)
    → length q ≤ fuel + i
    → i < length q
    → IsSinking q i
    → IsHeap (sift_down fuel i q)
unfolding sift_down
sift_down-IsHeap zero i q enough hi h = absurd (omega arith)
sift_down-IsHeap (suc fuel) i q enough hi h =
    let least = smallest-IsSmallest q i in
    elim (Bool-cases (nat_eq (smallest q i) i)) [
      | inl rests ↦ rw rests (settled least rests)
      | inr sinks ↦ elim least.from_family [
        | inl same ↦ absurd (ground arith)
        | inr (low, child, inside) ↦ rw sinks (
            sift_down-IsHeap fuel (smallest q i) (swap_nodes i (smallest q i) q)
              (ground (arith, length-swap_nodes i (smallest q i) q))
              (omega (arith, length-swap_nodes i (smallest q i) q))
              (swap-IsSinking q i (smallest q i) hi low inside child least.nearest least.no_further
                h))
      ]
    ]
  where
    settled : IsSmallest q i (smallest q i) → nat_eq (smallest q i) i ≡ true → IsHeap q
    settled least rests c above below = elim (Bool-cases (nat_eq (parent c) i)) [
      | inl child ↦
          let same : smallest q i ≡ i = ground arith in
          let under : parent c ≡ i = ground arith in
          rw under (rw same at (least.nearest c above below under))
      | inr other ↦ h.ordered c above below other
    ]
