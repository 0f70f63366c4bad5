-- ===== src/Query/Transitive.antt =====
-- `getTransitiveDependents` of src/IR/DependencyGraph.cpp. The worklist is a stack, its back first.
mod Worklist
pub mod Reach
use block_type.Prelude.{
  ℕ, zero, suc, ◌+◌, Bool, true, false, not, Option, none, some, List, [], ◌∷◌, ◌++◌, if◌then◌else◌,
  length,
}
use block_type.Prelude.Maps.{nat_key, insert}
use block_type.Query.Graph.{DependencyGraph, contains, get_dependents, edges}

pub record Walk : Type 0 where
  pub visited : List (ℕ × Bool)
  pub result : List ℕ
  pub work_list : List ℕ

unfoldable pub push_all : List ℕ → List ℕ → List ℕ
push_all [] work = work
push_all (d ∷ ds) work = push_all ds (d ∷ work)

unfoldable pub push_unvisited : List (ℕ × Bool) → List ℕ → List ℕ → List ℕ
push_unvisited visited [] work = work
push_unvisited visited (d ∷ ds) work =
    push_unvisited visited ds (if not (contains d visited) then d ∷ work else work)

-- One round of the loop; `current` is off the worklist.
unfoldable pub visit : DependencyGraph → ℕ → Walk → Walk
visit g current s =
    if contains current s.visited
    then s
    else let visited = insert current true s.visited in
      record {
        visited = visited;
        result = s.result ++ current ∷ [];
        work_list = push_unvisited visited (get_dependents g current) s.work_list;
      }

unfoldable pub visit_loop : ℕ → DependencyGraph → Walk → Option (List ℕ)
visit_loop zero g s = elim s.work_list [ [] ↦ some s.result | c ∷ work ↦ none ]
visit_loop (suc n) g s = elim s.work_list [
  | [] ↦ some s.result
  | c ∷ work ↦ visit_loop n g (visit g c (record s { work_list = work }))
]

-- Each round takes a node off the worklist. A node's dependents are put there once, so the direct
-- dependents and all edges are rounds enough; `none` is a loop that has not ended by then.
unfoldable pub transitive_dependents : DependencyGraph → ℕ → Option (List ℕ)
transitive_dependents g id =
    let direct = get_dependents g id in
    visit_loop (length direct + edges g.dependents) g
      (record { visited = []; result = []; work_list = push_all direct [] })
