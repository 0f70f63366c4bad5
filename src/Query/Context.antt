-- ===== src/Query/Context.antt =====
-- `QueryContext` of src/IR/QueryContext.cpp: the cache of query results. The result of the function
-- `Compute` is an argument; a cache hit does not look at it.
pub mod Invalidation
use block_type.Prelude.{ℕ, Option, none, some, List, [], ◌∷◌}
use block_type.Prelude.Maps.{nat_key, lookup, insert, erase}
use block_type.Query.Graph.{DependencyGraph}
use block_type.Query.Transitive.{transitive_dependents}

pub record QueryContext {ℓ} (R : Type ℓ) : Type ℓ where
  pub cache : List (ℕ × R)
  pub dep_graph : DependencyGraph

module _ {ℓ} {R : Type ℓ} where
  unfoldable pub query : ℕ → R → QueryContext R → R × QueryContext R
  query id compute qc = elim (lookup id qc.cache) [
    | some result ↦ (result, qc)
    | none ↦ (compute, record qc { cache = insert id compute qc.cache })
  ]

  unfoldable pub erase_all : List ℕ → List (ℕ × R) → List (ℕ × R)
  erase_all [] cache = cache
  erase_all (d ∷ ds) cache = erase_all ds (erase d cache)

  -- `none` is a walk over the graph that does not end.
  unfoldable pub invalidate : ℕ → QueryContext R → Option (QueryContext R)
  invalidate id qc = elim (transitive_dependents qc.dep_graph id) [
    | none ↦ none
    | some deps ↦ some (record qc { cache = erase_all deps (erase id qc.cache) })
  ]

  unfoldable pub invalidate_all : QueryContext R → QueryContext R
  invalidate_all qc = record qc { cache = [] }
