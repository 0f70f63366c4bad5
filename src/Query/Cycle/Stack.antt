-- ===== src/Query/Cycle/Stack.antt =====
-- The frames on the stack: a way of edges, whose passed edges lead to black nodes.
use block_type.Prelude.{
  ℕ, ◌≡◌, ◌⊎◌, inl, inr, Bool, true, false, ◌||◌, Option, none, some, List, [], ◌∷◌, ◌==◌, arith,
  Bool-cases, take,
}
use block_type.Query.Graph.{DependencyGraph, found, get_dependencies}
use block_type.Query.Graph.Reach.{Reach, direct, next}
use block_type.Query.Cycle.{Frame}

unfoldable pub on_stack : ℕ → List Frame → Bool
on_stack v [] = false
on_stack v (f ∷ below) = f.node == v || on_stack v below

-- No node has two frames.
unfoldable pub IsDistinct : List Frame → Type 0
IsDistinct [] = Unit
IsDistinct (f ∷ below) = (on_stack f.node below ≡ false) × IsDistinct below

module _ (g : DependencyGraph) where
  abbrev pub Edge : ℕ → ℕ → Type 0
  Edge v d = found d (get_dependencies g v) ≡ true

  -- Each node depends on the one above it, and the top one on `x`.
  unfoldable pub Links : ℕ → List Frame → Type 0
  Links x [] = Unit
  Links x (f ∷ below) = Edge f.node x × Links f.node below

  unfoldable pub Linked : List Frame → Type 0
  Linked [] = Unit
  Linked (f ∷ below) = Links f.node below

  pub Links-Linked : (x : ℕ) (stack : List Frame) → Links x stack → Linked stack
  unfolding Links Linked
  Links-Linked x [] links = tt
  Links-Linked x (f ∷ below) links = links.1

  -- So each node on the stack leads to `x`.
  pub on_stack-Reach :
      (x : ℕ) (stack : List Frame)
      → Links x stack
      → (v : ℕ) → on_stack v stack ≡ true
      → Reach (get_dependencies g) v x
  unfolding on_stack Links
  on_stack-Reach x [] links v h = absurd cc
  on_stack-Reach x (f ∷ below) links v h = elim (Bool-cases (f.node == v)) [
    | inl here ↦ let same : f.node ≡ v = ground arith in direct x (rw same at links.0)
    | inr there ↦ next f.node x (on_stack-Reach f.node below links.1 v (ground arith)) links.0
  ]

  -- A dependency that the frame has passed is finished, unless it is the node above.
  abbrev pub Passed : List ℕ → Option ℕ → Frame → Type 0
  Passed order above f =
      (d : ℕ)
      → found d (take f.dep_idx (get_dependencies g f.node)) ≡ true
      → (found d order ≡ true) ⊎ (above ≡ some d)

  unfoldable pub AllPassed : List ℕ → Option ℕ → List Frame → Type 0
  AllPassed order above [] = Unit
  AllPassed order above (f ∷ below) = Passed order above f × AllPassed order (some f.node) below

  -- More finished nodes do no harm.
  pub AllPassed-grow :
      (order : List ℕ) (v : ℕ) (above : Option ℕ) (stack : List Frame)
      → AllPassed order above stack
      → AllPassed (v ∷ order) above stack
  unfolding AllPassed found
  AllPassed-grow order v above [] ok = ok
  AllPassed-grow order v above (f ∷ below) ok = (
    λ d h. elim (ok.0 d h) [ inl e ↦ inl (ground arith) | inr e ↦ inr e ],
    AllPassed-grow order v (some f.node) below ok.1,
  )

  -- When the node above is finished, it counts as such.
  pub AllPassed-finish :
      (order : List ℕ) (v : ℕ) (stack : List Frame)
      → AllPassed order (some v) stack
      → AllPassed (v ∷ order) none stack
  unfolding AllPassed found
  AllPassed-finish order v [] ok = ok
  AllPassed-finish order v (f ∷ below) ok = (
    λ d h. elim (ok.0 d h) [
      | inl e ↦ inl (ground arith)
      | inr e ↦ let same : v ≡ d = cc in inl (ground arith)
    ],
    AllPassed-grow order v (some f.node) below ok.1,
  )
