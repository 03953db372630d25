-- ===== src/Schedule/Footpaths/Shortest.antt =====
-- internal/schedule/buffer.go, closeFootpaths: the invariant of the search from a station.
use multi_agent_travel.Prelude.GoMap.{lookup_or, member, lookup}
use multi_agent_travel.Prelude.{
  ap, ◌∙◌, All-map, sym, All-of_Any, Any, String, ◌≡◌, inl, inr, true, false, some, List, [], ◌∷◌,
  arith, Bool-cases, ◌==◌, eq_ℕ, eq_String, eq→≡, ==_refl, All,
}
use multi_agent_travel.Prelude.Int.{ltb_ℤ, ℤ, pos, ◌≤ℤ◌, eq_ℤ}
use multi_agent_travel.Model.{Footpath}
use multi_agent_travel.Schedule.Footpaths.Queue.{WalkNode, pop}
use multi_agent_travel.Schedule.Footpaths.Queue.Members.{pop-keeps}
use multi_agent_travel.Schedule.Footpaths.Queue.Least.{pop_least, pop-IsHeap}
use multi_agent_travel.Schedule.Footpaths.Queue.Contents.{Any-pop}
use multi_agent_travel.Schedule.Footpaths.{is_beaten, visit, Walks, Search, relax_walks}
use multi_agent_travel.Schedule.Footpaths.Sound.{max_walk, IsEdge, IsWalkable, IsFound}
use multi_agent_travel.Schedule.Footpaths.Relax.{
  IsQueued, IsRelaxed, IsReached, IsWithin, IsNode, IsFit, relax_walks-IsRelaxed,
}

module _ (direct : Walks) (limit : ℤ) (src : String) (bound : limit ≤ℤ max_walk)
    (walkable : IsWalkable direct) where
  -- The invariant of the search: a settled station is no further than what waits, and the ends of its
  -- edges are known.
  pub record IsDijkstra (s : Search) : Type 0 where
    pub queued : IsQueued s
    pub origin : lookup src s.dist ≡ some (pos 0)
    pub reached : (v : String) → member v s.settled ≡ true → (x : ℤ) × (lookup v s.dist ≡ some x)
    pub behind :
        (v : String) (x : ℤ)
        → member v s.settled ≡ true
        → lookup v s.dist ≡ some x
        → All (λ n. x ≤ℤ n.dist) s.queue
    pub relaxed :
        (v : String) (x : ℤ) (e : Footpath)
        → member v s.settled ≡ true
        → lookup v s.dist ≡ some x
        → IsEdge direct v e
        → IsReached limit x e s

  -- A node that is skipped tells nothing new.
  skip-IsDijkstra :
      (s : Search) (n : WalkNode) (rest : List WalkNode)
      → pop s.queue ≡ some (n, rest)
      → IsDijkstra s
      → ((v : String) (x : ℤ)
          → lookup v s.dist ≡ some x
          → member v s.settled ≡ false
          → IsNode v x n
          → ⊥)
      → IsDijkstra (record s { queue = rest })
  skip-IsDijkstra s n rest e h useless = record {
    queued = record {
      heap = pop-IsHeap s.queue rest n e h.queued.heap;
      known = (pop-keeps (λ m. IsWithin m.stop m.dist s) s.queue rest n e h.queued.known).1;
      waiting = λ v x known free.
          elim (Any-pop (IsNode v x) s.queue rest n e (h.queued.waiting v x known free)) [
            | inl here ↦ absurd (useless v x known free here)
            | inr there ↦ there
          ];
    };
    origin = h.origin;
    reached = h.reached;
    behind = λ v x done known.
        (pop-keeps (λ m. x ≤ℤ m.dist) s.queue rest n e (h.behind v x done known)).1;
    relaxed = h.relaxed;
  }

  All-edge :
      (P : Footpath → Type 0) (es : List Footpath) (e : Footpath)
      → All P es
      → Any (λ f. f ≡ e) es
      → P e
  All-edge P [] e h k = absurd k
  All-edge P (f ∷ es) e h (inl same) = rw (← same) h.0
  All-edge P (f ∷ es) e h (inr there) = All-edge P es e h.1 there

  some_eq : {a b : ℤ} → some a ≡ some b → a ≡ b
  some_eq q = cc

  module _ (s : Search) (n : WalkNode) (rest : List WalkNode) (e : pop s.queue ≡ some (n, rest))
      (h : IsDijkstra s) (found : IsFound direct limit src n.stop n.dist)
      (first : member n.stop s.settled ≡ false) (current : lookup n.stop s.dist ≡ some n.dist) where
    abbrev settled_state : Search
    settled_state = record s { queue = rest; settled = n.stop ∷ s.settled }

    abbrev after : Search
    after = relax_walks limit n.dist (lookup_or [] n.stop direct) settled_state

    edges-IsFit : All (IsFit n.dist) (lookup_or [] n.stop direct)
    edges-IsFit =
        All-of_Any (IsFit n.dist) (lookup_or [] n.stop direct) (λ x there.
          let (low, high) = walkable n.stop x there in (found.1, ground arith, low, high))

    relaxation :
        IsRelaxed n.dist settled_state after
        × All (λ x. IsReached limit n.dist x after) (lookup_or [] n.stop direct)
    relaxation =
        relax_walks-IsRelaxed limit n.dist (lookup_or [] n.stop direct) settled_state edges-IsFit

    settled-IsQueued : IsQueued settled_state
    unfolding member
    settled-IsQueued = record {
      heap = pop-IsHeap s.queue rest n e h.queued.heap;
      known = (pop-keeps (λ m. IsWithin m.stop m.dist s) s.queue rest n e h.queued.known).1;
      waiting = λ v x known free. elim (Bool-cases (n.stop == v)) [
        | inl same ↦ absurd cc (rw (member, same) at free)
        | inr other ↦
            elim (Any-pop (IsNode v x) s.queue rest n e
              (h.queued.waiting v x known (rw (member, other) at free))) [
                | inl here ↦
                    let self : (n.stop == v) ≡ true = rw here.0 (==_refl v) in
                    absurd cc (other, self)
                | inr there ↦ there
              ]
      ];
    }

    -- The seconds of a settled station, which no relaxation changes.
    settled_before :
        (v : String)
        → member v (n.stop ∷ s.settled) ≡ true
        → (x : ℤ) × (lookup v s.dist ≡ some x) × (x ≤ℤ n.dist)
    unfolding member
    settled_before v done = elim (Bool-cases (n.stop == v)) [
      | inl same ↦ (n.dist, rw (← eq→≡ n.stop v same) current, ground arith)
      | inr other ↦
          let old : member v s.settled ≡ true = rw (member, other) at done in
          let (x, known) = h.reached v old in
          (x, known, (pop-keeps (λ m. x ≤ℤ m.dist) s.queue rest n e (h.behind v x old known)).0)
    ]

    still :
        (v : String) (y : ℤ)
        → member v (n.stop ∷ s.settled) ≡ true
        → lookup v after.dist ≡ some y
        → (lookup v s.dist ≡ some y) × (y ≤ℤ n.dist)
    still v y done known =
        let (x, old, low) = settled_before v done in
        let same : x ≡ y = some_eq (sym (relaxation.0.fixed v x old low) ∙ known) in
        rw (← same) (old, low)

    settle-IsDijkstra : IsDijkstra after
    unfolding member
    settle-IsDijkstra =
        let r = relaxation.0 in
        let floor = r.floor (pop_least s.queue rest n e h.queued.heap) in
        record {
          queued = r.queued settled-IsQueued;
          origin = r.fixed src (pos 0) h.origin found.1;
          reached = λ v done.
              let (x, old, low) = settled_before v (rw r.settled at done) in
              (x, r.fixed v x old low);
          behind = λ v x done known.
              let (old, low) = still v x (rw r.settled at done) known in
              All-map (λ m. n.dist ≤ℤ m.dist) (λ m. x ≤ℤ m.dist) (λ m above. ground arith)
                after.queue floor;
          relaxed = λ v x edge done known is_edge near.
              let (old, low) = still v x (rw r.settled at done) known in
              elim (Bool-cases (n.stop == v)) [
                | inl same ↦
                    let here : n.dist ≡ x = some_eq (sym current ∙ rw (eq→≡ n.stop v same) old) in
                    let (y, there, less) =
                      All-edge (λ f. IsReached limit n.dist f after) (lookup_or [] n.stop direct)
                        edge relaxation.1 (rw (eq→≡ n.stop v same) is_edge) (rw here near) in
                    (y, there, rw here at less)
                | inr other ↦
                    let settled_now : member v (n.stop ∷ s.settled) ≡ true = rw r.settled at done in
                    let before : member v s.settled ≡ true = rw (member, other) at settled_now in
                    let (y, there, less) = h.relaxed v x edge before old is_edge near in
                    let (z, now, lower) = r.nearer edge.neighbour_stop y there in
                    (z, now, ground arith)
              ];
        }

  pub visit-IsDijkstra :
      (s : Search) (n : WalkNode) (rest : List WalkNode)
      → pop s.queue ≡ some (n, rest)
      → IsDijkstra s
      → IsFound direct limit src n.stop n.dist
      → IsDijkstra (visit direct limit n (record s { queue = rest }))
  unfolding visit
  visit-IsDijkstra s n rest e h found = elim (Bool-cases (member n.stop s.settled)) [
    | inl done_before ↦
        rw (visit, done_before)
          (skip-IsDijkstra s n rest e h
            (λ v x known free here. absurd cc (done_before, free, here.0)))
    | inr first ↦
        let (y, known, low) =
          (pop-keeps (λ m. IsWithin m.stop m.dist s) s.queue rest n e h.queued.known).0 in
        elim (Bool-cases (is_beaten n.dist (lookup n.stop s.dist))) [
          | inl stale ↦
              rw (visit, first, stale)
                (skip-IsDijkstra s n rest e h (λ v x there free here.
                  let less : ltb_ℤ y n.dist ≡ true = rw known at stale in
                  let same : y ≡ x = some_eq (sym known ∙ rw here.0 there) in
                  let end : n.dist ≡ x = here.1 in absurd (ground arith)))
          | inr fresh ↦
              rw (visit, first, fresh)
                (settle-IsDijkstra s n rest e h found first
                  (rw known (ap some (met y known low fresh))))
        ]
  ]
    where
      met :
          (y : ℤ)
          → lookup n.stop s.dist ≡ some y
          → y ≤ℤ n.dist
          → is_beaten n.dist (lookup n.stop s.dist) ≡ false
          → y ≡ n.dist
      met y known low fresh = let test : ltb_ℤ y n.dist ≡ false = rw known at fresh in ground arith
