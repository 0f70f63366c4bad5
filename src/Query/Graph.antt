-- ===== src/Query/Graph.antt =====
-- `DependencyGraph` of src/IR/DependencyGraph.cpp. A `DenseMap` is an association list.
pub mod Edges
pub mod Reach
pub mod Pending
use block_type.Prelude.{
  ℕ, ◌+◌, Bool, true, false, not, ◌||◌, Option, none, some, List, [], ◌∷◌, ◌++◌, ◌==◌,
  if◌then◌else◌, length,
}
use block_type.Prelude.Maps.{nat_key, lookup, insert}

pub record DependencyGraph : Type 0 where
  pub dependencies : List (ℕ × List ℕ)
  pub dependents : List (ℕ × List ℕ)
  pub fingerprints : List (ℕ × ℕ)

abbrev pub empty : DependencyGraph
empty = record { dependencies = []; dependents = []; fingerprints = [] }

unfoldable pub contains {ℓ} : {V : Type ℓ} → ℕ → List (ℕ × V) → Bool
contains k m = elim (lookup k m) [ none ↦ false | some v ↦ true ]

-- The list under a key; `operator[]` makes an empty one where there is none.
unfoldable pub list_at : ℕ → List (ℕ × List ℕ) → List ℕ
list_at k m = elim (lookup k m) [ none ↦ [] | some l ↦ l ]

-- The search loop over a list.
unfoldable pub found : ℕ → List ℕ → Bool
found x [] = false
found x (y ∷ ys) = y == x || found x ys

unfoldable pub push_new : ℕ → List ℕ → List ℕ
push_new x l = if found x l then l else l ++ x ∷ []

-- `if (!M.contains(K)) M[K] = SmallVector()`
unfoldable pub ensure : ℕ → List (ℕ × List ℕ) → List (ℕ × List ℕ)
ensure k m = if not (contains k m) then insert k [] m else m

-- One round of the first loop.
unfoldable pub record_edge : ℕ → ℕ → DependencyGraph → DependencyGraph
record_edge dependent dep g = record g {
  dependencies =
      ensure dep
        (insert dependent (push_new dep (list_at dependent g.dependencies)) g.dependencies);
  dependents = insert dep (push_new dependent (list_at dep g.dependents)) g.dependents;
}

unfoldable pub record_all : ℕ → List ℕ → DependencyGraph → DependencyGraph
record_all dependent [] g = g
record_all dependent (dep ∷ deps) g = record_all dependent deps (record_edge dependent dep g)

unfoldable pub ensure_all : List ℕ → List (ℕ × List ℕ) → List (ℕ × List ℕ)
ensure_all [] m = m
ensure_all (dep ∷ deps) m = ensure_all deps (ensure dep m)

unfoldable pub record_dependency : ℕ → List ℕ → DependencyGraph → DependencyGraph
record_dependency dependent deps g =
    let g1 = record g { dependencies = ensure dependent g.dependencies } in
    let g2 = record_all dependent deps g1 in
    record g2 { dependents = ensure dependent (ensure_all deps g2.dependents) }

unfoldable pub get_dependencies : DependencyGraph → ℕ → List ℕ
get_dependencies g id = list_at id g.dependencies

unfoldable pub get_dependents : DependencyGraph → ℕ → List ℕ
get_dependents g id = list_at id g.dependents

unfoldable pub set_fingerprint : ℕ → ℕ → DependencyGraph → DependencyGraph
set_fingerprint id fp g = record g { fingerprints = insert id fp g.fingerprints }

unfoldable pub get_fingerprint : DependencyGraph → ℕ → ℕ
get_fingerprint g id = elim (lookup id g.fingerprints) [ none ↦ 0 | some fp ↦ fp ]

unfoldable pub has_fingerprint_changed : DependencyGraph → ℕ → ℕ → Bool
has_fingerprint_changed g id fp = elim (lookup id g.fingerprints) [
  | none ↦ true
  | some old ↦ not (old == fp)
]

-- The number of edges in a table.
unfoldable pub edges : List (ℕ × List ℕ) → ℕ
edges [] = 0
edges ((k, l) ∷ m) = length l + edges m
