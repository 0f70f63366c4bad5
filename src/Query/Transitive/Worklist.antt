-- ===== src/Query/Transitive/Worklist.antt =====
-- Pushing on the worklist.
use block_type.Prelude.{
  ℕ, ◌+◌, ◌≤◌, ◌≡◌, refl, Bool, true, not, ◌||◌, List, [], ◌∷◌, ◌==◌, if◌then◌else◌, length, arith,
  Bool-cases, inl, inr,
}
use block_type.Prelude.Maps.{nat_key, insert, lookup-insert}
use block_type.Query.Graph.{contains, found}
use block_type.Query.Transitive.{push_all, push_unvisited}

pub contains-insert :
    (k j : ℕ) (m : List (ℕ × Bool)) → contains j (insert k true m) ≡ (k == j || contains j m)
unfolding contains
contains-insert k j m = ground (arith, lookup-insert k j true m)

pub found-push_all : (v : ℕ) (ds w : List ℕ) → found v (push_all ds w) ≡ (found v ds || found v w)
unfolding found push_all
found-push_all v [] w = refl
found-push_all v (d ∷ ds) w = ground (arith, found-push_all v ds (d ∷ w))

-- Nothing is lost: what is not pushed has been visited.
pub push_unvisited-keeps :
    (v : ℕ) (visited : List (ℕ × Bool)) (ds w : List ℕ)
    → (contains v visited || found v (push_unvisited visited ds w))
      ≡ (contains v visited || found v ds || found v w)
unfolding found push_unvisited
push_unvisited-keeps v visited [] w = ground arith
push_unvisited-keeps v visited (d ∷ ds) w = elim (Bool-cases (d == v)) [
  | inl e ↦
      let same : d ≡ v = ground arith in
      ground
        (arith, push_unvisited-keeps v visited ds (if not (contains d visited) then d ∷ w else w))
  | inr e ↦
      ground
        (arith, push_unvisited-keeps v visited ds (if not (contains d visited) then d ∷ w else w))
]

pub push_unvisited-from :
    (v : ℕ) (visited : List (ℕ × Bool)) (ds w : List ℕ)
    → found v (push_unvisited visited ds w) ≡ true
    → (found v ds || found v w) ≡ true
unfolding found push_unvisited
push_unvisited-from v visited [] w h = h
push_unvisited-from v visited (d ∷ ds) w h =
    ground
      (arith, push_unvisited-from v visited ds (if not (contains d visited) then d ∷ w else w) h)

pub length-push_all : (ds w : List ℕ) → length (push_all ds w) ≡ length ds + length w
unfolding push_all
length-push_all [] w = omega arith
length-push_all (d ∷ ds) w = ground (arith, length-push_all ds (d ∷ w))

pub length-push_unvisited :
    (visited : List (ℕ × Bool)) (ds w : List ℕ)
    → length (push_unvisited visited ds w) ≤ length ds + length w
unfolding push_unvisited
length-push_unvisited visited [] w = omega arith
length-push_unvisited visited (d ∷ ds) w =
    ground (arith, length-push_unvisited visited ds (if not (contains d visited) then d ∷ w else w))
