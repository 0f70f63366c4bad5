-- ===== src/Query/Cycle.antt =====
-- `hasCycle` of src/IR/DependencyGraph.cpp: a search in depth with three colours. The stack of frames
-- has its back first.
pub mod Order
pub mod Stack
pub mod Round
pub mod Search
pub mod Whole
use block_type.Prelude.{
  ℕ, zero, suc, ◌+◌, ◌*◌, Bool, true, false, Option, none, some, List, [], ◌∷◌, ◌==◌, ltb,
  if◌then◌else◌, length, get_or,
}
use block_type.Prelude.Maps.{nat_key, lookup, insert}
use block_type.Query.Graph.{DependencyGraph, get_dependencies, edges}

-- 0 is white, also where a node has no entry; 1 is gray and 2 black.
unfoldable pub color_of : ℕ → List (ℕ × ℕ) → ℕ
color_of v colors = elim (lookup v colors) [ none ↦ 0 | some c ↦ c ]

pub record Frame : Type 0 where
  pub node : ℕ
  pub dep_idx : ℕ

pub data Outcome : Type 0 where
  back_edge : Outcome
  go_on : List (ℕ × ℕ) → List Frame → Outcome

-- The next dependency of the top frame, which has passed it.
unfoldable pub advance : List (ℕ × ℕ) → ℕ → Frame → List Frame → Outcome
advance colors dep top below =
    if color_of dep colors == 0
    then go_on (insert dep 1 colors) (record { node = dep; dep_idx = 0 } ∷ top ∷ below)
    else if color_of dep colors == 1
    then back_edge
    else go_on colors (top ∷ below)

-- One round of the inner loop, with the frame at the top and those below it.
unfoldable pub round : DependencyGraph → List (ℕ × ℕ) → Frame → List Frame → Outcome
round g colors f below =
    let deps = get_dependencies g f.node in
    if ltb f.dep_idx (length deps)
    then advance colors (get_or deps f.dep_idx 0) (record f { dep_idx = f.dep_idx + 1 }) below
    else go_on (insert f.node 2 colors) below

-- The inner loop: `true` with a cycle, `false` with the colours when the stack is empty.
unfoldable pub search :
    ℕ → DependencyGraph → List (ℕ × ℕ) → List Frame → Option (Bool × List (ℕ × ℕ))
search n g colors [] = some (false, colors)
search zero g colors (f ∷ below) = none
search (suc n) g colors (f ∷ below) = elim (round g colors f below) [
  | back_edge ↦ some (true, colors)
  | go_on colors' stack ↦ search n g colors' stack
]

-- The outer loop over the nodes.
unfoldable pub search_all : ℕ → DependencyGraph → List (ℕ × ℕ) → List ℕ → Option Bool
search_all n g colors [] = some false
search_all n g colors (start ∷ starts) = elim (color_of start colors == 2) [
  | true ↦ search_all n g colors starts
  | false ↦ elim (search n g (insert start 1 colors) (record { node = start; dep_idx = 0 } ∷ [])) [
    | none ↦ none
    | some (true, _) ↦ some true
    | some (false, colors') ↦ search_all n g colors' starts
  ]
]

unfoldable pub keys {ℓ} : {V : Type ℓ} → List (ℕ × V) → List ℕ
keys [] = []
keys ((k, v) ∷ m) = k ∷ keys m

-- Each round passes an edge or takes a frame off the stack, and a frame is put there with an edge or
-- at the start: twice the edges and one are rounds enough for each start.
unfoldable pub has_cycle : DependencyGraph → Option Bool
has_cycle g = search_all (1 + 2 * edges g.dependencies) g [] (keys g.dependencies)
