-- ===== src/Query/Cycle/Whole.antt =====
-- The outer loop: all nodes are finished, or there is a cycle.
use block_type.Prelude.{
  ℕ, ◌+◌, ◌*◌, ◌≡◌, ◌≤◌, ◌↔◌, ◌⊎◌, inl, inr, refl, ◌∙◌, Bool, true, false, ◌||◌, Option, some, List,
  [], ◌∷◌, ◌==◌, arith, Bool-cases,
}
use block_type.Prelude.Maps.{nat_key, lookup, insert}
use block_type.Query.Graph.{DependencyGraph, found, get_dependencies, list_at, edges}
use block_type.Query.Graph.Reach.{Reach, direct, next}
use block_type.Query.Graph.Pending.{pending-edges, pending_next}
use block_type.Query.Cycle.{color_of, search, search_all, keys, has_cycle}
use block_type.Query.Cycle.Order.{IsOrdered, no_cycle, ends_in_order}
use block_type.Query.Cycle.Stack.{on_stack, IsDistinct, Links, Linked, AllPassed}
use block_type.Query.Cycle.Round.{IsSearch, color_of-insert}
use block_type.Query.Cycle.Search.{seen, unpassed, to_do, search_ends}

-- When the stack is empty, what has been seen is finished.
seen-order :
    (g : DependencyGraph) (colors : List (ℕ × ℕ)) (order : List ℕ)
    → IsSearch g colors [] order
    → (v : ℕ) → seen colors v ≡ true
    → found v order ≡ true
unfolding on_stack
seen-order g colors order ok v h = ground (arith, ok.gray v, ok.black v, ok.valued v)

start-IsSearch :
    (g : DependencyGraph) (colors : List (ℕ × ℕ)) (order : List ℕ) (start : ℕ)
    → IsSearch g colors [] order
    → (color_of start colors == 2) ≡ false
    → IsSearch g (insert start 1 colors) (record { node = start; dep_idx = 0 } ∷ []) order
unfolding on_stack IsDistinct Links Linked AllPassed found
start-IsSearch g colors order start ok new = record {
  gray = λ v. ground (arith, color_of-insert start v 1 colors, ok.gray v);
  black = λ v. elim (Bool-cases (start == v)) [
    | inl here ↦
        let same : start ≡ v = ground arith in
        let off : (color_of v colors == 2) ≡ false = rw same at new in
        ground (arith, color_of-insert start v 1 colors, ok.black v)
    | inr other ↦ ground (arith, color_of-insert start v 1 colors, ok.black v)
  ];
  valued = λ v. ground (arith, color_of-insert start v 1 colors, ok.valued v);
  distinct = (refl, tt);
  linked = tt;
  passed = (λ d h. absurd cc, tt);
  ordered = ok.ordered;
}

start-enough :
    (g : DependencyGraph) (colors : List (ℕ × ℕ)) (start : ℕ)
    → (color_of start colors == 0) ≡ true
    → to_do g (insert start 1 colors) (record { node = start; dep_idx = 0 } ∷ [])
      ≤ 1 + 2 * edges g.dependencies
unfolding unpassed get_dependencies
start-enough g colors start white = omega (
  arith,
  pending-edges (seen colors) g.dependencies,
  pending_next start (seen colors) (seen (insert start 1 colors)) g.dependencies (ground arith)
      (λ k. ground (arith, color_of-insert start k 1 colors)),
)

module _ (n : ℕ) (g : DependencyGraph) (colors : List (ℕ × ℕ)) (start : ℕ) (starts : List ℕ) where
  abbrev begun : Option (Bool × List (ℕ × ℕ))
  begun = search n g (insert start 1 colors) (record { node = start; dep_idx = 0 } ∷ [])

  search_all_old :
      (color_of start colors == 2) ≡ true
      → search_all n g colors (start ∷ starts) ≡ search_all n g colors starts
  unfolding search_all
  search_all_old old = rw (search_all, old) refl

  search_all_cycle :
      (c : List (ℕ × ℕ))
      → (color_of start colors == 2) ≡ false
      → begun ≡ some (true, c)
      → search_all n g colors (start ∷ starts) ≡ some true
  unfolding search_all
  search_all_cycle c new e = rw (search_all, new, e) refl

  search_all_next :
      (c : List (ℕ × ℕ))
      → (color_of start colors == 2) ≡ false
      → begun ≡ some (false, c)
      → search_all n g colors (start ∷ starts) ≡ search_all n g c starts
  unfolding search_all
  search_all_next c new e = rw (search_all, new, e) refl

-- What the outer loop finds from a state between two searches.
AllFound : DependencyGraph → List (ℕ × ℕ) → List ℕ → Type 0
AllFound g colors starts =
    (order : List ℕ) × IsOrdered (get_dependencies g) order
    × ((v : ℕ) → (seen colors v || found v starts) ≡ true → found v order ≡ true)

search_all_ends :
    (g : DependencyGraph) (starts : List ℕ) (colors : List (ℕ × ℕ)) (order : List ℕ)
    → IsSearch g colors [] order
    → ((search_all (1 + 2 * edges g.dependencies) g colors starts ≡ some true)
        × ((v : ℕ) × Reach (get_dependencies g) v v))
      ⊎ ((search_all (1 + 2 * edges g.dependencies) g colors starts ≡ some false)
          × AllFound g colors starts)
unfolding search_all AllFound found on_stack
search_all_ends g [] colors order ok =
    inr (refl, (order, ok.ordered, λ v h. seen-order g colors order ok v (ground arith)))
search_all_ends g (start ∷ starts) colors order ok =
    elim (Bool-cases (color_of start colors == 2)) [
      | inl old ↦ elim (search_all_ends g starts colors order ok) [
        | inl (e, cycle) ↦ inl (search_all_old _ g colors start starts old ∙ e, cycle)
        | inr (e, (order', ordered, all)) ↦ inr (
          search_all_old _ g colors start starts old ∙ e,
          (
            order',
            ordered,
            λ v h. elim (Bool-cases (start == v)) [
              | inl here ↦
                  let same : start ≡ v = ground arith in
                  let old' : (color_of v colors == 2) ≡ true = rw same at old in
                  all v (ground arith)
              | inr other ↦ all v (ground arith)
            ],
          ),
        )
      ]
      | inr new ↦
          let first = start-IsSearch g colors order start ok new in
          let white : (color_of start colors == 0) ≡ true =
            ground (arith, ok.gray start, ok.valued start) in
          let enough = start-enough g colors start white in
          elim (search_ends (1 + 2 * edges g.dependencies) g (insert start 1 colors) _ order first
            enough) [
              | inl (c, e, cycle) ↦ inl (search_all_cycle _ g colors start starts c new e, cycle)
              | inr (done, e) ↦
                  elim (search_all_ends g starts done.colors' done.order' done.still) [
                    | inl (e', cycle) ↦
                        inl (search_all_next _ g colors start starts done.colors' new e ∙ e', cycle)
                    | inr (e', (order', ordered, all)) ↦ inr (
                      search_all_next _ g colors start starts done.colors' new e ∙ e',
                      (
                        order',
                        ordered,
                        λ v h.
                            ground (arith, color_of-insert start v 1 colors, done.keeps v, all v),
                      ),
                    )
                  ]
            ]
    ]

keys-found :
    (b v : ℕ) (m : List (ℕ × List ℕ)) → found b (list_at v m) ≡ true → found v (keys m) ≡ true
unfolding found list_at lookup keys
keys-found b v [] h = absurd cc
keys-found b v ((k, l) ∷ m) h = ground (arith, keys-found b v m)

Reach-key :
    (g : DependencyGraph) (v w : ℕ)
    → Reach (get_dependencies g) v w
    → found v (keys g.dependencies) ≡ true
unfolding get_dependencies
Reach-key g v w (direct b h) = keys-found b v g.dependencies h
Reach-key g v w (next b c r h) = Reach-key g v b r

no_nodes-IsSearch : (g : DependencyGraph) → IsSearch g [] [] []
unfolding on_stack IsDistinct Linked AllPassed found IsOrdered color_of lookup
no_nodes-IsSearch g = record {
  gray = λ v. refl;
  black = λ v. refl;
  valued = λ v. omega arith;
  distinct = tt;
  linked = tt;
  passed = tt;
  ordered = tt;
}

-- The search ends within its rounds, and says that there is a cycle exactly if some node depends on
-- itself, directly or through others.
pub has_cycle_iff :
    (g : DependencyGraph)
    → (b : Bool) × (has_cycle g ≡ some b)
      × ((b ≡ true) ↔ ((v : ℕ) × Reach (get_dependencies g) v v))
unfolding has_cycle AllFound
has_cycle_iff g = elim (search_all_ends g (keys g.dependencies) [] [] (no_nodes-IsSearch g)) [
  | inl (e, cycle) ↦ (true, e, (λ _. cycle, λ _. refl))
  | inr (e, (order, ordered, all)) ↦ (
    false,
    e,
    (
      λ h. absurd cc,
      λ c. absurd (
          no_cycle (get_dependencies g) order ordered c.0
            (all c.0 (ground (arith, Reach-key g c.0 c.0 c.1))) c.1),
    ),
  )
]

-- In a graph without cycles there is an order of nodes in which every edge goes to a later node, and
-- which has the ends of all edges.
pub cycle_free-order :
    (g : DependencyGraph)
    → has_cycle g ≡ some false
    → (order : List ℕ) × IsOrdered (get_dependencies g) order
      × ((v d : ℕ) → found d (get_dependencies g v) ≡ true → found d order ≡ true)
unfolding has_cycle AllFound IsOrdered
cycle_free-order g h = elim (search_all_ends g (keys g.dependencies) [] [] (no_nodes-IsSearch g)) [
  | inl (e, cycle) ↦ absurd cc
  | inr (e, (order, ordered, all)) ↦ (
    order,
    ordered,
    λ v d edge.
        ends_in_order (get_dependencies g) order ordered v d
          (all v (ground (arith, Reach-key g v d (direct d edge)))) edge,
  )
]
