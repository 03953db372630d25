-- ===== src/Schedule/Footpaths/Relax.antt =====
-- internal/schedule/buffer.go, closeFootpaths: what the relaxation of the edges of one station does.
use multi_agent_travel.Prelude.GoMap.{member, lookup-insert, lookup, insert}
use multi_agent_travel.Prelude.{
  Any, String, ◌≡◌, refl, ◌∙◌, inl, inr, true, false, some, List, [], ◌∷◌, arith, Bool-cases,
  Option-cases, ◌==◌, eq_ℕ, eq_String, eq→≡, ==_refl, All, All-map,
}
use multi_agent_travel.Prelude.Int.{wrap64_id, ◌+ℤ◌, ℤ, pos, ltb_ℤ, leb_ℤ, ◌≤ℤ◌, ◌<ℤ◌, eq_ℤ, add64}
use multi_agent_travel.Model.{Footpath}
use multi_agent_travel.Schedule.Footpaths.Queue.{WalkNode, push}
use multi_agent_travel.Schedule.Footpaths.Queue.Members.{All-push}
use multi_agent_travel.Schedule.Footpaths.Queue.Order.{IsHeap}
use multi_agent_travel.Schedule.Footpaths.Queue.Least.{push-IsHeap}
use multi_agent_travel.Schedule.Footpaths.Queue.Contents.{Any-push}
use multi_agent_travel.Schedule.Footpaths.{Search, relax_walk, relax_walks, is_no_better}
use multi_agent_travel.Schedule.Footpaths.Sound.{max_walk}

-- A station is known within some seconds.
abbrev pub IsWithin : String → ℤ → Search → Type 0
IsWithin v x s = (y : ℤ) × (lookup v s.dist ≡ some y) × (y ≤ℤ x)

abbrev pub IsNode : String → ℤ → WalkNode → Type 0
IsNode v x n = (n.stop ≡ v) × (n.dist ≡ x)

-- The queue holds what is known and not settled, and nothing that is unknown.
pub record IsQueued (s : Search) : Type 0 where
  pub heap : IsHeap s.queue
  pub known : All (λ n. IsWithin n.stop n.dist s) s.queue
  pub waiting :
      (v : String) (x : ℤ)
      → lookup v s.dist ≡ some x
      → member v s.settled ≡ false
      → Any (IsNode v x) s.queue

-- What changes when edges of a station at d seconds are relaxed.
pub record IsRelaxed (d : ℤ) (s s' : Search) : Type 0 where
  pub settled : s'.settled ≡ s.settled
  pub nearer : (v : String) (x : ℤ) → lookup v s.dist ≡ some x → IsWithin v x s'
  pub fixed : (v : String) (x : ℤ) → lookup v s.dist ≡ some x → x ≤ℤ d → lookup v s'.dist ≡ some x
  pub floor : All (λ n. d ≤ℤ n.dist) s.queue → All (λ n. d ≤ℤ n.dist) s'.queue
  pub queued : IsQueued s → IsQueued s'

IsRelaxed-refl : (d : ℤ) (s : Search) → IsRelaxed d s s
IsRelaxed-refl d s = record {
  settled = refl;
  nearer = λ v x e. (x, e, ground arith);
  fixed = λ v x e low. e;
  floor = λ h. h;
  queued = λ h. h;
}

IsWithin-trans :
    (v : String) (x : ℤ) (d : ℤ) (s t : Search) → IsRelaxed d s t → IsWithin v x s → IsWithin v x t
IsWithin-trans v x d s t h (y, e, low) = let (z, f, lower) = h.nearer v y e in (z, f, ground arith)

IsRelaxed-trans : (d : ℤ) (s t u : Search) → IsRelaxed d s t → IsRelaxed d t u → IsRelaxed d s u
IsRelaxed-trans d s t u g h = record {
  settled = h.settled ∙ g.settled;
  nearer = λ v x e. IsWithin-trans v x d t u h (g.nearer v x e);
  fixed = λ v x e low. h.fixed v x (g.fixed v x e low) low;
  floor = λ k. h.floor (g.floor k);
  queued = λ k. h.queued (g.queued k);
}

-- The end of an edge is known within the seconds over the edge.
abbrev pub IsReached : ℤ → ℤ → Footpath → Search → Type 0
IsReached limit d e s =
    d +ℤ e.walk_seconds ≤ℤ limit → IsWithin e.neighbour_stop (d +ℤ e.walk_seconds) s

abbrev pub IsFit : ℤ → Footpath → Type 0
IsFit d e =
    (pos 0 ≤ℤ d) × (d ≤ℤ max_walk) × (pos 1 ≤ℤ e.walk_seconds) × (e.walk_seconds ≤ℤ max_walk)

module _ (limit d : ℤ) (e : Footpath) (s : Search) (fit : IsFit d e) where
  abbrev sum : ℤ
  sum = d +ℤ e.walk_seconds

  abbrev grown : Search
  grown = record s {
    dist = insert e.neighbour_stop sum s.dist;
    queue = push (record { stop = e.neighbour_stop; dist = sum }) s.queue;
  }

  above : d <ℤ sum
  unfolding ◌+ℤ◌
  above = ground arith

  sum64 : add64 d e.walk_seconds ≡ sum
  unfolding add64 ◌+ℤ◌
  sum64 = wrap64_id sum (unfold ◌+ℤ◌ in ground arith)

  module _ (better : is_no_better sum (lookup e.neighbour_stop s.dist) ≡ false) where
    improved : (x : ℤ) → lookup e.neighbour_stop s.dist ≡ some x → sum <ℤ x
    improved x known = let test : leb_ℤ x sum ≡ false = rw known at better in ground arith

    grown-nearer : (v : String) (x : ℤ) → lookup v s.dist ≡ some x → IsWithin v x grown
    grown-nearer v x known =
        let put = lookup-insert e.neighbour_stop v sum s.dist in
        elim (Bool-cases (e.neighbour_stop == v)) [
          | inl same ↦
              let less = improved x (rw (eq→≡ e.neighbour_stop v same) known) in
              (sum, rw (put, same), ground arith)
          | inr other ↦ (x, rw (put, other) known, ground arith)
        ]

    grown-waiting :
        IsQueued s
        → (v : String) (x : ℤ) → lookup v grown.dist ≡ some x
        → member v s.settled ≡ false
        → Any (IsNode v x) grown.queue
    grown-waiting q v x known free =
        let put = lookup-insert e.neighbour_stop v sum s.dist in
        elim (Bool-cases (e.neighbour_stop == v)) [
          | inl same ↦
              let here : sum ≡ x = some_eq (rw (put, same) at known) in
              Any-push (IsNode v x) _ s.queue (inl (eq→≡ e.neighbour_stop v same, here))
          | inr other ↦
              Any-push (IsNode v x) _ s.queue (inr (q.waiting v x (rw (put, other) at known) free))
        ]
      where
        some_eq : {a b : ℤ} → some a ≡ some b → a ≡ b
        some_eq r = cc

    grown-IsRelaxed : IsRelaxed d s grown
    grown-IsRelaxed = record {
      settled = refl;
      nearer = grown-nearer;
      fixed = λ v x known low.
          let put = lookup-insert e.neighbour_stop v sum s.dist in
          let up = above in
          elim (Bool-cases (e.neighbour_stop == v)) [
            | inl same ↦
                let less = improved x (rw (eq→≡ e.neighbour_stop v same) known) in
                absurd (ground arith)
            | inr other ↦ rw (put, other) known
          ];
      floor = λ h. let up = above in All-push (λ n. d ≤ℤ n.dist) _ s.queue (ground arith) h;
      queued = λ q. record {
        heap = push-IsHeap _ s.queue q.heap;
        known =
            All-push (λ n. IsWithin n.stop n.dist grown) _ s.queue
              (
                sum,
                rw (
                  lookup-insert e.neighbour_stop e.neighbour_stop sum s.dist,
                  ==_refl e.neighbour_stop,
                ),
                ground arith,
              )
              (All-map (λ n. IsWithin n.stop n.dist s) (λ n. IsWithin n.stop n.dist grown)
                (λ n (y, known, low).
                  let (z, f, lower) = grown-nearer n.stop y known in (z, f, ground arith))
                s.queue q.known);
        waiting = grown-waiting q;
      };
    }

  relax_walk-IsRelaxed :
      IsRelaxed d s (relax_walk limit d e s) × IsReached limit d e (relax_walk limit d e s)
  unfolding relax_walk
  relax_walk-IsRelaxed = elim (Bool-cases (ltb_ℤ limit sum)) [
    | inl far ↦ rw (relax_walk, sum64, far) (IsRelaxed-refl d s, λ near. absurd (ground arith))
    | inr near ↦ elim (Bool-cases (is_no_better sum (lookup e.neighbour_stop s.dist))) [
      | inl old ↦ rw (relax_walk, sum64, near, old) (IsRelaxed-refl d s, λ h. old_reach old)
      | inr better ↦
          rw (relax_walk, sum64, near, better)
            (
              grown-IsRelaxed better,
              λ h. (
                sum,
                rw (
                  lookup-insert e.neighbour_stop e.neighbour_stop sum s.dist,
                  ==_refl e.neighbour_stop,
                ),
                ground arith,
              ),
            )
    ]
  ]
    where
      old_reach :
          is_no_better sum (lookup e.neighbour_stop s.dist) ≡ true → IsWithin e.neighbour_stop sum s
      old_reach old = elim (Option-cases (lookup e.neighbour_stop s.dist)) [
        | inl absent ↦ absurd cc (rw absent at old)
        | inr (cur, known) ↦
            let test : leb_ℤ cur sum ≡ true = rw known at old in (cur, known, ground arith)
      ]

pub relax_walks-IsRelaxed :
    (limit d : ℤ) (es : List Footpath) (s : Search)
    → All (IsFit d) es
    → IsRelaxed d s (relax_walks limit d es s)
      × All (λ e. IsReached limit d e (relax_walks limit d es s)) es
unfolding relax_walks
relax_walks-IsRelaxed limit d [] s fits = (IsRelaxed-refl d s, tt)
relax_walks-IsRelaxed limit d (e ∷ es) s fits =
    let (one, here) = relax_walk-IsRelaxed limit d e s fits.0 in
    let next = relax_walk limit d e s in
    let (rest, there) = relax_walks-IsRelaxed limit d es next fits.1 in
    (
      IsRelaxed-trans d s next (relax_walks limit d es next) one rest,
      (
        (λ near.
            IsWithin-trans e.neighbour_stop (d +ℤ e.walk_seconds) d next
              (relax_walks limit d es next) rest (here near)),
        there,
      ),
    )
