-- ===== src/Query/Examples.antt =====
-- A chain of three queries, 1 on 2 on 3, and a query that depends on itself.
use block_type.Prelude.{
  arith, ◌≢◌, ◌++◌, ℕ, ◌≡◌, ◌↔◌, ◌⊎◌, refl, Bool, true, false, ◌||◌, ◌&&◌, some, none, List, [],
  ◌∷◌, ◌==◌, if◌then◌else◌,
}
use block_type.Prelude.Maps.{nat_key, lookup, insert}
use block_type.Query.Graph.{
  DependencyGraph, empty, contains, list_at, found, push_new, ensure, record_edge, record_all,
  ensure_all, record_dependency, get_dependencies, get_dependents, edges,
}
use block_type.Query.Graph.Edges.{
  record_dependency-edges, IsSymmetric, empty-IsSymmetric, record_dependency-IsSymmetric,
}
use block_type.Query.Hash.{text_fingerprint}
use block_type.Query.Hash.Change.{text_fingerprint_change}
use block_type.Query.Graph.Reach.{Reach}
use block_type.Query.Transitive.{push_all, push_unvisited, visit, visit_loop, transitive_dependents}
use block_type.Query.Transitive.Reach.{transitive_dependents-Reach}
use block_type.Query.Cycle.{color_of, advance, round, search, search_all, keys, has_cycle}
use block_type.Query.Cycle.Whole.{has_cycle_iff}
use block_type.Query.Marks.{unknown, get_mark, reset, try_mark_green}
use block_type.Query.Marks.Settled.{Answers}
use block_type.Query.Marks.Answers.{try_mark_green-Answers, reset-IsSettled, try_mark_green-endless}
use block_type.Query.Context.{QueryContext, query, invalidate}
use block_type.Query.Context.Invalidation.{query-invalidate}

abbrev chain : DependencyGraph
chain = record {
  dependencies = (1, 2 ∷ []) ∷ (2, 3 ∷ []) ∷ (3, []) ∷ [];
  dependents = (2, 1 ∷ []) ∷ (1, []) ∷ (3, 2 ∷ []) ∷ [];
  fingerprints = (1, 17) ∷ (2, 18) ∷ (3, 19) ∷ [];
}

abbrev loop : DependencyGraph
loop = record empty { dependencies = (5, 5 ∷ []) ∷ []; dependents = (5, 5 ∷ []) ∷ [] }

recorded_twice :
    get_dependencies (record_dependency 2 (3 ∷ []) (record_dependency 1 (2 ∷ []) empty)) 1 ≡ 2 ∷ []
unfolding get_dependencies record_dependency record_all record_edge ensure ensure_all list_at lookup
    insert push_new found contains
recorded_twice = refl

dependents_of_three : transitive_dependents chain 3 ≡ some (2 ∷ 1 ∷ [])
unfolding transitive_dependents visit_loop visit push_all push_unvisited get_dependents list_at
    lookup contains insert edges
dependents_of_three = refl

no_cycle_in_chain : has_cycle chain ≡ some false
unfolding has_cycle search_all search round advance color_of keys get_dependencies list_at lookup
    insert edges
no_cycle_in_chain = refl

cycle_in_loop : has_cycle loop ≡ some true
unfolding has_cycle search_all search round advance color_of keys get_dependencies list_at lookup
    insert edges
cycle_in_loop = refl

record_dependency-edges_example :
    (found 3 (get_dependencies (record_dependency 2 (3 ∷ []) empty) 2)
      ≡ (found 3 (get_dependencies empty 2) || 2 == 2 && found 3 (3 ∷ [])))
    × (found 2 (get_dependents (record_dependency 2 (3 ∷ []) empty) 3)
        ≡ (found 2 (get_dependents empty 3) || 2 == 2 && found 3 (3 ∷ [])))
record_dependency-edges_example = record_dependency-edges 2 (3 ∷ []) empty 2 3

record_dependency-IsSymmetric_example : IsSymmetric (record_dependency 2 (3 ∷ 4 ∷ []) empty)
record_dependency-IsSymmetric_example =
    record_dependency-IsSymmetric 2 (3 ∷ 4 ∷ []) empty empty-IsSymmetric

transitive_dependents-Reach_example :
    (r : List ℕ) × (transitive_dependents chain 3 ≡ some r)
    × ((v : ℕ) → (found v r ≡ true) ↔ Reach (get_dependents chain) 3 v)
transitive_dependents-Reach_example = transitive_dependents-Reach chain 3

has_cycle_iff_example :
    (b : Bool) × (has_cycle loop ≡ some b)
    × ((b ≡ true) ↔ ((v : ℕ) × Reach (get_dependencies loop) v v))
has_cycle_iff_example = has_cycle_iff loop

try_mark_green-Answers_example : (depth : ℕ) × Answers chain 1 (try_mark_green depth chain reset 1)
try_mark_green-Answers_example =
    try_mark_green-Answers chain no_cycle_in_chain 1 reset (reset-IsSettled chain)

loop_edge : get_dependencies loop 5 ≡ 5 ∷ []
unfolding get_dependencies list_at lookup
loop_edge = refl

loop_unmarked : get_mark [] 5 ≡ unknown
unfolding get_mark lookup
loop_unmarked = refl

try_mark_green-endless_example : try_mark_green 100 loop [] 5 ≡ none
try_mark_green-endless_example = try_mark_green-endless loop 100 5 [] loop_edge loop_unmarked

abbrev cached : QueryContext ℕ
cached = record { cache = (1, 100) ∷ (2, 200) ∷ (3, 300) ∷ []; dep_graph = chain }

query-invalidate_example :
    (qc' : QueryContext ℕ) × (stale : ℕ → Bool) × (invalidate 2 cached ≡ some qc')
    × ((v : ℕ) → (stale v ≡ true) ↔ ((v ≡ 2) ⊎ Reach (get_dependents chain) 2 v))
    × ((v fresh : ℕ)
        → (query v fresh qc').0 ≡ (if stale v then fresh else (query v fresh cached).0))
query-invalidate_example = query-invalidate 2 cached

text_fingerprint_change_example :
    text_fingerprint ((b'f' ∷ []) ++ b'o' ∷ b'o' ∷ [])
    ≢ text_fingerprint ((b'f' ∷ []) ++ b'a' ∷ b'o' ∷ [])
text_fingerprint_change_example =
    text_fingerprint_change (b'f' ∷ []) (b'o' ∷ []) b'o' b'a' (omega arith) (omega arith)
      (omega arith, tt) (omega arith)
