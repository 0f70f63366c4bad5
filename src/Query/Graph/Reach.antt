-- ===== src/Query/Graph/Reach.antt =====
-- What the edges of a graph reach; the list of a node has the ends of its edges.
use block_type.Prelude.{ℕ, ◌≡◌, true, List}
use block_type.Query.Graph.{found}

-- There is a way of one edge or more from `a`.
pub data Reach (ends : ℕ → List ℕ) (a : ℕ) : ℕ → Type 0 where
  direct : (b : ℕ) → found b (ends a) ≡ true → Reach ends a b
  next : (b c : ℕ) → Reach ends a b → found c (ends b) ≡ true → Reach ends a c
