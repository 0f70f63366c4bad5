-- ===== src/Query/Graph/Edges.antt =====
-- What `recordDependency` adds: the same edges to both tables.
use block_type.Prelude.{
  ℕ, ◌≡◌, refl, true, ◌||◌, ◌&&◌, List, [], ◌∷◌, ◌++◌, ◌==◌, if◌then◌else◌, arith,
}
use block_type.Prelude.Maps.{nat_key, lookup, insert, lookup-insert}
use block_type.Query.Graph.{
  DependencyGraph, empty, contains, list_at, found, push_new, ensure, record_edge, record_all,
  ensure_all, record_dependency, get_dependencies, get_dependents,
}

pub found-append : (y x : ℕ) (l : List ℕ) → found y (l ++ x ∷ []) ≡ (found y l || x == y)
unfolding found
found-append y x [] = ground arith
found-append y x (z ∷ l) = ground (arith, found-append y x l)

found_same : (x y : ℕ) (l : List ℕ) → (x == y) ≡ true → found x l ≡ found y l
unfolding found
found_same x y [] e = refl
found_same x y (z ∷ l) e = ground (arith, found_same x y l e)

pub found-push_new : (y x : ℕ) (l : List ℕ) → found y (push_new x l) ≡ (found y l || x == y)
unfolding push_new
found-push_new y x l = ground (arith, found-append y x l, found_same x y l)

pub list_at-ensure : (j k : ℕ) (m : List (ℕ × List ℕ)) → list_at j (ensure k m) ≡ list_at j m
unfolding list_at ensure contains
list_at-ensure j k m = ground (arith, lookup-insert k j [] m)

list_at-insert :
    (j k : ℕ) (l : List ℕ) (m : List (ℕ × List ℕ))
    → list_at j (insert k l m) ≡ (if k == j then l else list_at j m)
unfolding list_at
list_at-insert j k l m = ground (arith, lookup-insert k j l m)

list_at_same : (j k : ℕ) (m : List (ℕ × List ℕ)) → (j == k) ≡ true → list_at j m ≡ list_at k m
list_at_same j k m e = let same : j ≡ k = ground arith in rw same refl

found-insert :
    (y j k x : ℕ) (m : List (ℕ × List ℕ))
    → found y (list_at j (insert k (push_new x (list_at k m)) m))
      ≡ (found y (list_at j m) || k == j && x == y)
found-insert y j k x m =
    rw (list_at-insert j k (push_new x (list_at k m)) m)
      (ground (arith, found-push_new y x (list_at k m), list_at_same k j m))

dependencies-edge :
    (a d x b : ℕ) (g : DependencyGraph)
    → found b (get_dependencies (record_edge a d g) x)
      ≡ (found b (get_dependencies g x) || a == x && d == b)
unfolding get_dependencies record_edge
dependencies-edge a d x b g = rw (list_at-ensure) (found-insert b x a d g.dependencies)

dependents-edge :
    (a d x b : ℕ) (g : DependencyGraph)
    → found x (get_dependents (record_edge a d g) b)
      ≡ (found x (get_dependents g b) || a == x && d == b)
unfolding get_dependents record_edge
dependents-edge a d x b g = ground (arith, found-insert x b d a g.dependents)

record_all-edges :
    (a : ℕ) (ds : List ℕ) (x b : ℕ) (g : DependencyGraph)
    → (found b (get_dependencies (record_all a ds g) x)
        ≡ (found b (get_dependencies g x) || a == x && found b ds))
      × (found x (get_dependents (record_all a ds g) b)
          ≡ (found x (get_dependents g b) || a == x && found b ds))
unfolding record_all found
record_all-edges a [] x b g = ground arith
record_all-edges a (d ∷ ds) x b g = ground (
  arith,
  record_all-edges a ds x b (record_edge a d g),
  dependencies-edge a d x b g,
  dependents-edge a d x b g,
)

list_at-ensure_all :
    (j : ℕ) (ds : List ℕ) (m : List (ℕ × List ℕ)) → list_at j (ensure_all ds m) ≡ list_at j m
unfolding ensure_all
list_at-ensure_all j [] m = refl
list_at-ensure_all j (d ∷ ds) m = rw (list_at-ensure_all j ds (ensure d m)) (list_at-ensure j d m)

-- After `a` is recorded to depend on `ds`, the dependencies of every node are those it had, and for
-- `a` also `ds`; the dependents of every node are those it had, and for the nodes of `ds` also `a`.
pub record_dependency-edges :
    (a : ℕ) (ds : List ℕ) (g : DependencyGraph) (x b : ℕ)
    → (found b (get_dependencies (record_dependency a ds g) x)
        ≡ (found b (get_dependencies g x) || a == x && found b ds))
      × (found x (get_dependents (record_dependency a ds g) b)
          ≡ (found x (get_dependents g b) || a == x && found b ds))
unfolding record_dependency get_dependencies get_dependents
record_dependency-edges a ds g x b =
    let start = record g { dependencies = ensure a g.dependencies } in
    let (there, back) = record_all-edges a ds x b start in
    (rw (list_at-ensure x a g.dependencies) at there, rw (list_at-ensure, list_at-ensure_all) back)

-- Both tables hold the same edges.
abbrev pub IsSymmetric : DependencyGraph → Type 0
IsSymmetric g = (x b : ℕ) → found b (get_dependencies g x) ≡ found x (get_dependents g b)

pub empty-IsSymmetric : IsSymmetric empty
unfolding get_dependencies get_dependents list_at lookup found
empty-IsSymmetric x b = refl

-- `recordDependency` keeps the two tables of a graph in step.
pub record_dependency-IsSymmetric :
    (a : ℕ) (ds : List ℕ) (g : DependencyGraph)
    → IsSymmetric g
    → IsSymmetric (record_dependency a ds g)
record_dependency-IsSymmetric a ds g ok x b =
    let (there, back) = record_dependency-edges a ds g x b in ground (arith, ok x b)
