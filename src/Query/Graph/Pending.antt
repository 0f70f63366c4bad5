-- ===== src/Query/Graph/Pending.antt =====
-- The edges that leave nodes which are not done: what a walk over the graph has still to go.
use block_type.Prelude.{
  ℕ, ◌+◌, ◌≤◌, ◌≡◌, Bool, true, false, List, [], ◌∷◌, ◌==◌, if◌then◌else◌, length, arith,
  Bool-cases, inl, inr,
}
use block_type.Prelude.Maps.{nat_key, lookup}
use block_type.Query.Graph.{list_at, edges}

unfoldable pub pending : (ℕ → Bool) → List (ℕ × List ℕ) → ℕ
pending done [] = 0
pending done ((k, l) ∷ m) = let rest = pending done m in (if done k then 0 else length l) + rest

pub pending-edges : (done : ℕ → Bool) (m : List (ℕ × List ℕ)) → pending done m ≤ edges m
unfolding pending edges
pending-edges done [] = omega arith
pending-edges done ((k, l) ∷ m) = ground (arith, pending-edges done m)

pub pending_mono :
    (done done' : ℕ → Bool) (m : List (ℕ × List ℕ))
    → ((k : ℕ) → done k ≡ true → done' k ≡ true)
    → pending done' m ≤ pending done m
unfolding pending
pending_mono done done' [] more = omega arith
pending_mono done done' ((k, l) ∷ m) more = ground (arith, more k, pending_mono done done' m more)

-- A node that becomes done gives up its edges.
pub pending_next :
    (c : ℕ) (done done' : ℕ → Bool) (m : List (ℕ × List ℕ))
    → done c ≡ false
    → ((k : ℕ) → done' k ≡ (if c == k then true else done k))
    → pending done' m + length (list_at c m) ≤ pending done m
unfolding pending list_at lookup
pending_next c done done' [] new more = omega arith
pending_next c done done' ((k, l) ∷ m) new more = elim (Bool-cases (k == c)) [
  | inl e ↦
      let same : k ≡ c = ground arith in
      let kept : done k ≡ false = rw same new in
      ground (arith, more k, pending_next c done done' m new more)
  | inr e ↦ ground (arith, more k, pending_next c done done' m new more)
]
