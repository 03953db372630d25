-- ===== src/Schedule/Footpaths/Least.antt =====
-- internal/schedule/buffer.go, closeFootpaths: the search from a station finds the least seconds of a
-- walk to every station within the limit.
use multi_agent_travel.Prelude.GoMap.{GoMap, member, lookup}
use multi_agent_travel.Prelude.{
  Any, ℕ, zero, suc, String, ◌≡◌, refl, inl, inr, true, some, List, [], ◌∷◌, arith, Bool-cases,
  Option-cases, ◌==◌, eq_ℕ, eq_String, eq→≡, ==_refl, All,
}
use multi_agent_travel.Prelude.Int.{◌+ℤ◌, ℤ, pos, ◌≤ℤ◌, eq_ℤ}
use multi_agent_travel.Schedule.Footpaths.Queue.{WalkNode, pop}
use multi_agent_travel.Schedule.Footpaths.Queue.Members.{pop-keeps, All-push}
use multi_agent_travel.Schedule.Footpaths.Queue.Least.{push-IsHeap}
use multi_agent_travel.Schedule.Footpaths.{
  Walks, Search, start_at, visit, walk_loop, walks_from, edge_count,
}
use multi_agent_travel.Schedule.Footpaths.Sound.{
  max_walk, Walk, stay, walk_on, IsWalkable, IsFound, IsSearch, visit-IsSearch, walks_from-IsFound,
}
use multi_agent_travel.Schedule.Footpaths.Relax.{IsWithin, IsNode}
use multi_agent_travel.Schedule.Footpaths.Shortest.{IsDijkstra, visit-IsDijkstra}
use multi_agent_travel.Schedule.Footpaths.Enough.{search-empties}

module _ (direct : Walks) (limit : ℤ) (src : String) (bound : limit ≤ℤ max_walk)
    (walkable : IsWalkable direct) where
  loop-IsDijkstra :
      (fuel : ℕ) (s : Search)
      → IsSearch direct limit src s
      → IsDijkstra direct limit src bound walkable s
      → IsDijkstra direct limit src bound walkable (walk_loop direct limit fuel s)
  unfolding walk_loop
  loop-IsDijkstra zero s f h = h
  loop-IsDijkstra (suc fuel) s f h = elim (Option-cases (pop s.queue)) [
    | inl over ↦ rw (walk_loop, over) h
    | inr ((n, rest), e) ↦
        let (here, left, size) =
          pop-keeps (λ m. IsFound direct limit src m.stop m.dist) s.queue rest n e f.queued in
        let popped : IsSearch direct limit src (record s { queue = rest }) = record {
          found = f.found;
          queued = left;
        } in
        rw (walk_loop, e)
          (loop-IsDijkstra fuel (visit direct limit n (record s { queue = rest }))
            (visit-IsSearch direct limit src bound walkable n (record s { queue = rest }) here
              popped)
            (visit-IsDijkstra direct limit src bound walkable s n rest e h here))
  ]

  some_eq : {a b : ℤ} → some a ≡ some b → a ≡ b
  some_eq q = cc

  start-IsDijkstra : IsDijkstra direct limit src bound walkable (start_at src)
  unfolding start_at lookup member
  start-IsDijkstra = record {
    queued = record {
      heap =
          push-IsHeap (record { stop = src; dist = pos 0 }) []
            (λ c above below. absurd (omega arith));
      known =
          All-push (λ n. IsWithin n.stop n.dist (start_at src))
            (record { stop = src; dist = pos 0 }) [] (pos 0, rw (==_refl src) refl, ground arith)
            tt;
      waiting = λ v x known free. inl (elim (Bool-cases (src == v)) [
        | inl same ↦ (eq→≡ src v same, some_eq (rw same at known))
        | inr other ↦ absurd cc (rw other at known)
      ]);
    };
    origin = rw (==_refl src) refl;
    reached = λ v done. absurd cc;
    behind = λ v x done known. absurd cc;
    relaxed = λ v x e done known is_edge near. absurd cc;
  }

  abbrev final : Search
  final = walk_loop direct limit (suc (edge_count direct)) (start_at src)

  final-IsDijkstra : pos 0 ≤ℤ limit → IsDijkstra direct limit src bound walkable final
  unfolding start_at
  final-IsDijkstra low =
      let here : IsFound direct limit src src (pos 0) = (stay, ground arith, low) in
      loop-IsDijkstra (suc (edge_count direct)) (start_at src)
        (record {
          found = (here, tt);
          queued =
              All-push (λ m. IsFound direct limit src m.stop m.dist)
                (record { stop = src; dist = pos 0 }) [] here tt;
        })
        start-IsDijkstra

  all_settled :
      (v : String) (x : ℤ)
      → pos 0 ≤ℤ limit
      → lookup v final.dist ≡ some x
      → member v final.settled ≡ true
  all_settled v x low known = elim (Bool-cases (member v final.settled)) [
    | inl done ↦ done
    | inr free ↦ absurd (
        nothing final.queue (search-empties direct limit src)
          ((final-IsDijkstra low).queued.waiting v x known free))
  ]
    where
      nothing : (q : List WalkNode) → q ≡ [] → Any (IsNode v x) q → ⊥
      nothing [] e h = h
      nothing (n ∷ q) e h = absurd cc e

  add_mono : (y x w : ℤ) → y ≤ℤ x → y +ℤ w ≤ℤ x +ℤ w
  unfolding ◌+ℤ◌
  add_mono y x w h = ground arith

  add_above : (x w : ℤ) → pos 1 ≤ℤ w → x ≤ℤ x +ℤ w
  unfolding ◌+ℤ◌
  add_above x w h = ground arith

  found_by :
      (v : String) (d : ℤ) → pos 0 ≤ℤ limit → Walk direct src v d → d ≤ℤ limit → IsWithin v d final
  found_by v d low stay near = (pos 0, (final-IsDijkstra low).origin, ground arith)
  found_by v d low (walk_on u x e walk is_edge) near =
      let (long, short) = walkable u e is_edge in
      let up = add_above x e.walk_seconds long in
      let (y, known, less) = found_by u x low walk (omega (arith, up)) in
      let shift = add_mono y x e.walk_seconds less in
      let (z, there, lower) =
        (final-IsDijkstra low).relaxed u y e (all_settled u y low known) known is_edge
          (omega (arith, shift)) in
      (z, there, omega (arith, shift))

  lookup-All :
      (P : String → ℤ → Type 0) (m : GoMap String ℤ) (v : String) (y : ℤ)
      → All (λ p. P p.0 p.1) m
      → lookup v m ≡ some y
      → P v y
  unfolding lookup
  lookup-All P [] v y h e = absurd cc e
  lookup-All P ((key, x) ∷ rest) v y h e = elim (Bool-cases (key == v)) [
    | inl same ↦ rw (← eq→≡ key v same, ← some_eq (rw same at e)) h.0
    | inr other ↦ lookup-All P rest v y h.1 (rw other at e)
  ]

  -- For every walk along direct edges within the limit, the search from its first station ends with
  -- its last station at the seconds of some walk, no longer than that one: the least seconds. The
  -- direct edges have positive seconds that fit their column, and the limit fits it and is not negative.
  pub walks_from_least :
      pos 0 ≤ℤ limit
      → (v : String) (d : ℤ) → Walk direct src v d
      → d ≤ℤ limit
      → (y : ℤ) × (lookup v (walks_from direct limit src) ≡ some y) × (y ≤ℤ d) × Walk direct src v y
  unfolding walks_from
  walks_from_least low v d walk near =
      let (y, known, less) = found_by v d low walk near in
      (
        y,
        known,
        less,
        (lookup-All (IsFound direct limit src) (walks_from direct limit src) v y
            (walks_from-IsFound direct limit src bound walkable low) known).0,
      )
