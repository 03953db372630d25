-- ===== src/Schedule/Footpaths/Queue.antt =====
-- internal/schedule/buffer.go: walkQueue, the binary heap of the footpath closure. The slice is a
-- list; an index is below its length wherever the source reads or writes one.
pub mod Members
pub mod Order
pub mod Sink
pub mod Least
pub mod Contents
use multi_agent_travel.Prelude.{
  ℕ, zero, suc, ◌+◌, ◌-◌, ◌*◌, ◌/◌, String, ◌&&◌, Option, none, some, List, [], ◌∷◌, ◌++◌, ltb,
  nat_eq, if◌then◌else◌, eq_ℕ, eq_String, length, get_elem?, take,
}
use multi_agent_travel.Prelude.Int.{ℤ, pos, ltb_ℤ, leb_ℤ, eq_ℤ}

pub record WalkNode : Type 0 where
  pub stop : String
  pub dist : ℤ

unfoldable pub set_at : ℕ → WalkNode → List WalkNode → List WalkNode
set_at i v [] = []
set_at zero v (x ∷ xs) = v ∷ xs
set_at (suc i) v (x ∷ xs) = x ∷ set_at i v xs

-- q[i], q[j] = q[j], q[i]
unfoldable pub swap_nodes : ℕ → ℕ → List WalkNode → List WalkNode
unfolding set_at
swap_nodes i j q = elim (get_elem? q i) [
  | none ↦ q
  | some a ↦ elim (get_elem? q j) [ none ↦ q | some b ↦ set_at j a (set_at i b q) ]
]

unfoldable pub dist_at : List WalkNode → ℕ → ℤ
dist_at q i = elim (get_elem? q i) [ none ↦ pos 0 | some n ↦ n.dist ]

-- The loop of push; the index is fuel enough, since it falls.
unfoldable pub sift_up : ℕ → ℕ → List WalkNode → List WalkNode
unfolding dist_at swap_nodes
sift_up zero i q = q
sift_up (suc fuel) i q =
    let parent = (i - 1) / 2 in
    let rest = sift_up fuel parent (swap_nodes parent i q) in
    if nat_eq i 0 then q else if leb_ℤ (dist_at q parent) (dist_at q i) then q else rest

unfoldable pub push : WalkNode → List WalkNode → List WalkNode
unfolding sift_up
push n q = sift_up (length q) (length q) (q ++ (n ∷ []))

abbrev pub smaller_of : List WalkNode → ℕ → ℕ → ℕ
smaller_of q child best =
    if ltb child (length q) && ltb_ℤ (dist_at q child) (dist_at q best) then child else best

unfoldable pub smallest : List WalkNode → ℕ → ℕ
unfolding dist_at
smallest q i = smaller_of q (2 * i + 2) (smaller_of q (2 * i + 1) i)

-- The loop of pop; the length is fuel enough, since the index grows.
unfoldable pub sift_down : ℕ → ℕ → List WalkNode → List WalkNode
unfolding smallest swap_nodes
sift_down zero i q = q
sift_down (suc fuel) i q =
    let rest = sift_down fuel (smallest q i) (swap_nodes i (smallest q i) q) in
    if nat_eq (smallest q i) i then q else rest

-- old[0] = old[last]
unfoldable pub to_front : Option WalkNode → List WalkNode → List WalkNode
unfolding set_at
to_front none q = q
to_front (some n) q = set_at 0 n q

-- None for the empty queue, on which the source does not call pop.
unfoldable pub pop : List WalkNode → Option (WalkNode × List WalkNode)
unfolding to_front sift_down
pop [] = none
pop (top ∷ q) =
    let last = length q in
    some (top, sift_down last 0 (take last (to_front (get_elem? (top ∷ q) last) (top ∷ q))))
