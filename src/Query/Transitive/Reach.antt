-- ===== src/Query/Transitive/Reach.antt =====
-- The walk ends, and its result is what the edges reach.
use block_type.Prelude.{
  List-cases, ◌∙◌, ℕ, zero, suc, ◌+◌, ◌≤◌, ◌≡◌, ◌↔◌, refl, Bool, true, ◌||◌, some, List, [], ◌∷◌,
  ◌==◌, length, arith, Bool-cases, inl, inr,
}
use block_type.Prelude.Maps.{nat_key, lookup, insert}
use block_type.Query.Graph.{DependencyGraph, contains, found, list_at, get_dependents, edges}
use block_type.Query.Graph.Reach.{Reach, direct, next}
use block_type.Query.Graph.Pending.{pending, pending-edges, pending_next}
use block_type.Query.Graph.Edges.{found-append}
use block_type.Query.Transitive.Worklist.{
  contains-insert, found-push_all, push_unvisited-keeps, length-push_all, length-push_unvisited,
}
use block_type.Query.Transitive.{
  Walk, push_all, push_unvisited, visit, visit_loop, transitive_dependents,
}

-- Visited, or still to visit.
abbrev covers : Walk → ℕ → Bool
covers s v = contains v s.visited || found v s.work_list

record IsWalk (g : DependencyGraph) (id : ℕ) (s : Walk) : Type 0 where
  same : (v : ℕ) → found v s.result ≡ contains v s.visited
  sound : (v : ℕ) → covers s v ≡ true → Reach (get_dependents g) id v
  closed :
      (v w : ℕ)
      → contains v s.visited ≡ true
      → found w (get_dependents g v) ≡ true
      → covers s w ≡ true
  started : (w : ℕ) → found w (get_dependents g id) ≡ true → covers s w ≡ true

contains_same : (c v : ℕ) (m : List (ℕ × Bool)) → (c == v) ≡ true → contains c m ≡ contains v m
contains_same c v m e = let same : c ≡ v = ground arith in rw same refl

module _ (g : DependencyGraph) (c : ℕ) (s : Walk) (work : List ℕ) (e : s.work_list ≡ c ∷ work) where
  abbrev rest : Walk
  rest = record s { work_list = work }

  covers_top : covers s c ≡ true
  unfolding found
  covers_top = rw e (ground arith)

  covers-visit_old : contains c s.visited ≡ true → (v : ℕ) → covers rest v ≡ covers s v
  unfolding found
  covers-visit_old old v = rw e (ground (arith, contains_same c v s.visited))

  abbrev visited' : List (ℕ × Bool)
  visited' = insert c true s.visited

  covers-visit_new :
      (v : ℕ)
      → (contains v visited' || found v (push_unvisited visited' (get_dependents g c) work))
        ≡ (covers s v || found v (get_dependents g c))
  unfolding found
  covers-visit_new v = rw e (
      ground (
        arith,
        push_unvisited-keeps v visited' (get_dependents g c) work,
        contains-insert c v s.visited,
      ))

  visit-IsWalk : (id : ℕ) → IsWalk g id s → IsWalk g id (visit g c rest)
  unfolding visit
  visit-IsWalk id ok = elim (Bool-cases (contains c s.visited)) [
    | inl old ↦ rw old (record {
      same = ok.same;
      sound = λ v h. ok.sound v (ground (arith, covers-visit_old old v));
      closed = λ v w h h'. ground (arith, ok.closed v w h h', covers-visit_old old w);
      started = λ w h. ground (arith, ok.started w h, covers-visit_old old w);
    })
    | inr new ↦ rw new (record {
      same =
          λ v. ground (arith, ok.same v, found-append v c s.result, contains-insert c v s.visited);
      sound = λ v h. elim (Bool-cases (covers s v)) [
        | inl before ↦ ok.sound v before
        | inr fresh ↦ next c v (ok.sound c covers_top) (ground (arith, covers-visit_new v))
      ];
      closed = λ v w h h'. elim (Bool-cases (c == v)) [
        | inl here ↦
            let same : c ≡ v = ground arith in
            let edge : found w (get_dependents g c) ≡ true = rw same h' in
            ground (arith, covers-visit_new w)
        | inr other ↦ ground (
          arith,
          ok.closed v w (ground (arith, contains-insert c v s.visited)) h',
          covers-visit_new w,
        )
      ];
      started = λ w h. ground (arith, ok.started w h, covers-visit_new w);
    })
  ]

  visit-shrinks :
      length (visit g c rest).work_list
        + pending (λ k. contains k (visit g c rest).visited) g.dependents
      ≤ length work + pending (λ k. contains k s.visited) g.dependents
  unfolding visit get_dependents
  visit-shrinks = elim (Bool-cases (contains c s.visited)) [
    | inl old ↦ rw old (omega arith)
    | inr new ↦ rw new (
        omega (
          arith,
          pending_next c (λ k. contains k s.visited) (λ k. contains k visited') g.dependents new
              (λ k. ground (arith, contains-insert c k s.visited)),
          length-push_unvisited visited' (list_at c g.dependents) work,
        ))
  ]

covers_done : (s : Walk) → s.work_list ≡ [] → (w : ℕ) → covers s w ≡ contains w s.visited
unfolding found
covers_done s e w = rw e (ground arith)

Reach-visited :
    (g : DependencyGraph) (id : ℕ) (s : Walk)
    → s.work_list ≡ []
    → IsWalk g id s
    → (w : ℕ) → Reach (get_dependents g) id w
    → contains w s.visited ≡ true
Reach-visited g id s e ok w (direct b h) = ground (arith, ok.started w h, covers_done s e w)
Reach-visited g id s e ok w (next b c r h) =
    ground (arith, ok.closed b w (Reach-visited g id s e ok b r) h, covers_done s e w)

IsWalk-done :
    (g : DependencyGraph) (id : ℕ) (s : Walk)
    → s.work_list ≡ []
    → IsWalk g id s
    → (v : ℕ) → (found v s.result ≡ true) ↔ Reach (get_dependents g) id v
IsWalk-done g id s e ok v = (
  λ h. ok.sound v (ground (arith, ok.same v)),
  λ r. ground (arith, ok.same v, Reach-visited g id s e ok v r),
)

start-IsWalk :
    (g : DependencyGraph) (id : ℕ)
    → IsWalk g id
        (record { visited = []; result = []; work_list = push_all (get_dependents g id) [] })
unfolding found contains lookup
start-IsWalk g id = record {
  same = λ v. refl;
  sound = λ v h. direct v (ground (arith, found-push_all v (get_dependents g id) []));
  closed = λ v w h h'. cc;
  started = λ w h. ground (arith, found-push_all w (get_dependents g id) []);
}

visit_loop_next :
    (n : ℕ) (g : DependencyGraph) (s : Walk) (c : ℕ) (work : List ℕ)
    → s.work_list ≡ c ∷ work
    → visit_loop (suc n) g s ≡ visit_loop n g (visit g c (record s { work_list = work }))
unfolding visit_loop
visit_loop_next n g s c work e = rw e refl

visit_loop_ends :
    (n : ℕ) (g : DependencyGraph) (id : ℕ) (s : Walk)
    → length s.work_list + pending (λ k. contains k s.visited) g.dependents ≤ n
    → IsWalk g id s
    → (r : List ℕ) × (visit_loop n g s ≡ some r)
      × ((v : ℕ) → (found v r ≡ true) ↔ Reach (get_dependents g) id v)
unfolding visit_loop
visit_loop_ends zero g id s enough ok = elim (List-cases s.work_list) [
  | inl e ↦ (s.result, rw e refl, IsWalk-done g id s e ok)
  | inr (c, work, e) ↦ absurd (
      let fits : suc (length work) + pending (λ k. contains k s.visited) g.dependents ≤ 0 =
        rw e at enough in
      omega arith)
]
visit_loop_ends (suc n) g id s enough ok = elim (List-cases s.work_list) [
  | inl e ↦ (s.result, rw e refl, IsWalk-done g id s e ok)
  | inr (c, work, e) ↦
      let fits : suc (length work) + pending (λ k. contains k s.visited) g.dependents ≤ suc n =
        rw e at enough in
      let s' = visit g c (record s { work_list = work }) in
      let (r, ended, known) =
        visit_loop_ends n g id s' (omega (arith, visit-shrinks g c s work e))
          (visit-IsWalk g c s work e id ok) in
      (r, visit_loop_next n g s c work e ∙ ended, known)
]

-- The walk ends within its rounds, and its result has exactly the nodes that depend on the given
-- one, directly or through others. (The node itself is among them only if it depends on itself.)
pub transitive_dependents-Reach :
    (g : DependencyGraph) (id : ℕ)
    → (r : List ℕ) × (transitive_dependents g id ≡ some r)
      × ((v : ℕ) → (found v r ≡ true) ↔ Reach (get_dependents g) id v)
unfolding transitive_dependents
transitive_dependents-Reach g id =
    visit_loop_ends (length (get_dependents g id) + edges g.dependents) g id
      (record { visited = []; result = []; work_list = push_all (get_dependents g id) [] })
      (omega (
        arith,
        length-push_all (get_dependents g id) [],
        pending-edges (λ k. contains {V = Bool} k []) g.dependents,
      ))
      (start-IsWalk g id)
