-- ===== src/Schedule/Footpaths/Queue/Least.antt =====
-- internal/schedule/buffer.go, walkQueue: push and pop keep the heap order, and pop takes out a node of
-- least distance.
use multi_agent_travel.Prelude.{
  length-append, ℕ, zero, suc, ◌≤◌, ◌<◌, ◌≡◌, refl, Option, none, some, List, [], ◌∷◌, ◌++◌, arith,
  eq_ℕ, eq_String, length, get_elem?, take, All,
}
use multi_agent_travel.Prelude.Int.{ℤ, ◌≤ℤ◌, eq_ℤ}
use multi_agent_travel.Schedule.Footpaths.Queue.{WalkNode, push, pop, sift_down, dist_at, to_front}
use multi_agent_travel.Schedule.Footpaths.Queue.Members.{
  length-set_at, length-sift_down, length-take_le, pop_inj, pop-keeps,
}
use multi_agent_travel.Schedule.Footpaths.Queue.Order.{
  parent, IsHeap, dist_at-set_at, sift_up-IsHeap,
}
use multi_agent_travel.Schedule.Footpaths.Queue.Sink.{IsSinking, sift_down-IsHeap}

dist_at-append :
    (n : WalkNode) (q : List WalkNode) (k : ℕ)
    → k < length q
    → dist_at (q ++ (n ∷ [])) k ≡ dist_at q k
unfolding dist_at
dist_at-append n [] k h = absurd (omega arith)
dist_at-append n (x ∷ q) zero h = refl
dist_at-append n (x ∷ q) (suc k) h = dist_at-append n q k (omega arith)

dist_at-take : (n k : ℕ) (q : List WalkNode) → k < n → dist_at (take n q) k ≡ dist_at q k
unfolding dist_at
dist_at-take zero k q h = absurd (omega arith)
dist_at-take (suc n) k [] h = refl
dist_at-take (suc n) zero (x ∷ q) h = refl
dist_at-take (suc n) (suc k) (x ∷ q) h = dist_at-take n k q (omega arith)

pub push-IsHeap : (n : WalkNode) (q : List WalkNode) → IsHeap q → IsHeap (push n q)
unfolding push
push-IsHeap n q h =
    let size = length-append q (n ∷ []) in
    sift_up-IsHeap (length q) (length q) (q ++ (n ∷ [])) (omega arith) (omega (arith, size))
      (record {
        ordered = λ c above below other.
            let inside : c < length q = ground (arith, size) in
            rw (dist_at-append n q c inside, dist_at-append n q (parent c) (omega arith))
              (h c above inside);
        spanned = λ c above below child deep. absurd (omega (arith, size));
      })

to_front-IsSinking :
    (o : Option WalkNode) (q : List WalkNode)
    → 1 ≤ length q
    → IsHeap q
    → IsSinking (to_front o q) 0 × (length (to_front o q) ≡ length q)
unfolding to_front
to_front-IsSinking none q some_there h = (
  record {
    ordered = λ c above below other. h c above below;
    spanned = λ c above below child deep. absurd (omega arith);
  },
  refl,
)
to_front-IsSinking (some n) q some_there h = (
  record {
    ordered = λ c above below other.
        let old = h c above (omega (arith, length-set_at 0 n q)) in
        rw (dist_at-set_at 0 c n q some_there, dist_at-set_at 0 (parent c) n q some_there)
          (ground arith);
    spanned = λ c above below child deep. absurd (omega arith);
  },
  length-set_at 0 n q,
)

take-IsSinking : (n : ℕ) (q : List WalkNode) → n ≤ length q → IsSinking q 0 → IsSinking (take n q) 0
take-IsSinking n q small h =
    let size = length-take_le n q small in
    record {
      ordered = λ c above below other.
          let inside : c < n = omega (arith, size) in
          rw (dist_at-take n c q inside, dist_at-take n (parent c) q (omega arith))
            (h.ordered c above (omega arith) other);
      spanned = λ c above below child deep. absurd (omega arith);
    }

sift_all-IsHeap :
    (n : ℕ) (q : List WalkNode) → length q ≡ n → IsSinking q 0 → IsHeap (sift_down n 0 q)
sift_all-IsHeap zero q size h = λ c above below. absurd (omega (arith, length-sift_down 0 0 q))
sift_all-IsHeap (suc n) q size h = sift_down-IsHeap (suc n) 0 q (omega arith) (omega arith) h

pub pop-IsHeap :
    (q rest : List WalkNode) (n : WalkNode) → pop q ≡ some (n, rest) → IsHeap q → IsHeap rest
unfolding pop
pop-IsHeap [] rest n e h = absurd cc e
pop-IsHeap (top ∷ q) rest n e h =
    let front = to_front (get_elem? (top ∷ q) (length q)) (top ∷ q) in
    let (sinking, size) =
      to_front-IsSinking (get_elem? (top ∷ q) (length q)) (top ∷ q) (omega arith) h in
    let small : length q ≤ length front = omega (arith, size) in
    let (same, left) = pop_inj e in
    rw (← left) (
      sift_all-IsHeap (length q) (take (length q) front) (length-take_le (length q) front small)
        (take-IsSinking (length q) front small sinking))

root_least :
    (fuel i : ℕ) (q : List WalkNode)
    → i ≤ fuel
    → IsHeap q
    → i < length q
    → dist_at q 0 ≤ℤ dist_at q i
root_least zero i q small h inside = let e : i ≡ 0 = omega arith in rw e (ground arith)
root_least (suc fuel) zero q small h inside = ground arith
root_least (suc fuel) (suc i) q small h inside =
    let up = root_least fuel (parent (suc i)) q (omega arith) h (omega arith) in
    let step = h (suc i) (omega arith) inside in ground arith

All-of_dist :
    (P : ℤ → Type 0) (q : List WalkNode)
    → ((i : ℕ) → i < length q → P (dist_at q i))
    → All (λ n. P n.dist) q
unfolding dist_at
All-of_dist P [] h = tt
All-of_dist P (x ∷ q) h = (h 0 (omega arith), All-of_dist P q (λ i inside. h (suc i) (omega arith)))

-- The node that pop takes out is no further than those that are left, where the queue is a heap.
pub pop_least :
    (q rest : List WalkNode) (n : WalkNode)
    → pop q ≡ some (n, rest)
    → IsHeap q
    → All (λ m. n.dist ≤ℤ m.dist) rest
unfolding pop dist_at
pop_least [] rest n e h = absurd cc e
pop_least (top ∷ q) rest n e h =
    let (same, left) = pop_inj e in
    let all =
      All-of_dist (λ d. n.dist ≤ℤ d) (top ∷ q)
        (λ i inside. rw (← same) (root_least i i (top ∷ q) (omega arith) h inside)) in
    (pop-keeps (λ m. n.dist ≤ℤ m.dist) (top ∷ q) rest n e all).1
