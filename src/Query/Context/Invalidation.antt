-- ===== src/Query/Context/Invalidation.antt =====
-- Which results survive an invalidation.
use block_type.Prelude.{
  ℕ, ◌≡◌, ◌↔◌, ◌⊎◌, inl, inr, refl, ◌||◌, Bool, true, none, some, List, [], ◌∷◌, ◌==◌,
  if◌then◌else◌, arith, Bool-cases,
}
use block_type.Prelude.Maps.{nat_key, lookup, erase, lookup-erase, lookup-insert}
use block_type.Query.Graph.{found, get_dependents}
use block_type.Query.Graph.Reach.{Reach}
use block_type.Query.Transitive.Reach.{transitive_dependents-Reach}
use block_type.Query.Context.{QueryContext, query, erase_all, invalidate}

module _ {ℓ} {R : Type ℓ} where
  lookup-erase_all :
      (ds : List ℕ) (v : ℕ) (cache : List (ℕ × R))
      → lookup v (erase_all ds cache) ≡ (if found v ds then none else lookup v cache)
  unfolding erase_all found
  lookup-erase_all [] v cache = refl
  lookup-erase_all (d ∷ ds) v cache =
      ground (arith, lookup-erase_all ds v (erase d cache), lookup-erase d v cache)

  -- After `id` is invalidated, a query for a node computes its result anew if the node is `id` or
  -- depends on it, directly or through others, and answers as it would have answered before
  -- otherwise.
  pub query-invalidate :
      (id : ℕ) (qc : QueryContext R)
      → (qc' : QueryContext R) × (stale : ℕ → Bool) × (invalidate id qc ≡ some qc')
        × ((v : ℕ) → (stale v ≡ true) ↔ ((v ≡ id) ⊎ Reach (get_dependents qc.dep_graph) id v))
        × ((v : ℕ) (fresh : R)
            → (query v fresh qc').0 ≡ (if stale v then fresh else (query v fresh qc).0))
  unfolding invalidate query
  query-invalidate id qc =
      let (r, e, reached) = transitive_dependents-Reach qc.dep_graph id in
      (
        record qc { cache = erase_all r (erase id qc.cache) },
        λ v. v == id || found v r,
        rw (invalidate, e) refl,
        λ v. (
          λ h. elim (Bool-cases (v == id)) [
            | inl here ↦ inl (ground arith)
            | inr other ↦ inr ((reached v).0 (ground arith))
          ],
          λ h. elim h [
            | inl here ↦ ground arith
            | inr there ↦ let back = (reached v).1 there in ground arith
          ],
        ),
        λ v fresh.
            ground (arith, lookup-erase_all r v (erase id qc.cache), lookup-erase id v qc.cache),
      )

  -- A second query for a node answers like the first, whatever it would compute.
  query_again :
      (id : ℕ) (first second : R) (qc : QueryContext R)
      → query id second (query id first qc).1 ≡ query id first qc
  unfolding query
  query_again id first second qc = ground (arith, lookup-insert id id first qc.cache)
