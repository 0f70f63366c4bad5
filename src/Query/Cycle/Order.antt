-- ===== src/Query/Cycle/Order.antt =====
-- An order of nodes in which every edge goes to a later node has no cycle.
use block_type.Prelude.{ℕ, ◌≡◌, inl, inr, true, List, [], ◌∷◌, ◌==◌, arith, Bool-cases}
use block_type.Query.Graph.{found}
use block_type.Query.Graph.Reach.{Reach, direct, next}

module _ (ends : ℕ → List ℕ) where
  -- All ends of a node's edges stand behind it.
  unfoldable pub IsOrdered : List ℕ → Type 0
  IsOrdered [] = Unit
  IsOrdered (v ∷ rest) = ((d : ℕ) → found d (ends v) ≡ true → found d rest ≡ true) × IsOrdered rest

  pub ends_in_order :
      (order : List ℕ)
      → IsOrdered order
      → (v d : ℕ) → found v order ≡ true
      → found d (ends v) ≡ true
      → found d order ≡ true
  unfolding found IsOrdered
  ends_in_order [] ok v d h e = absurd cc
  ends_in_order (u ∷ rest) ok v d h e = elim (Bool-cases (u == v)) [
    | inl here ↦
        let same : u ≡ v = ground arith in
        let edge : found d (ends u) ≡ true = rw same e in ground (arith, ok.0 d edge)
    | inr there ↦ ground (arith, ends_in_order rest ok.1 v d (ground arith) e)
  ]

  -- What is reached from a node stands behind it.
  Reach-behind :
      (v : ℕ) (rest : List ℕ)
      → IsOrdered (v ∷ rest)
      → (d : ℕ) → Reach ends v d
      → found d rest ≡ true
  unfolding IsOrdered
  Reach-behind v rest ok d (direct b h) = ok.0 d h
  Reach-behind v rest ok d (next b c r h) =
      ends_in_order rest ok.1 b d (Reach-behind v rest ok b r) h

  pub no_cycle :
      (order : List ℕ) → IsOrdered order → (v : ℕ) → found v order ≡ true → ¬ Reach ends v v
  unfolding found
  no_cycle [] ok v h r = absurd cc
  no_cycle (u ∷ rest) ok v h r = elim (Bool-cases (u == v)) [
    | inl here ↦
        let same : u ≡ v = ground arith in
        no_cycle rest (unfold IsOrdered in ok.1) v (Reach-behind v rest (rw same at ok) v r) r
    | inr there ↦ no_cycle rest (unfold IsOrdered in ok.1) v (ground arith) r
  ]
