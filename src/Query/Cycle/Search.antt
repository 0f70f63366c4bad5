-- ===== src/Query/Cycle/Search.antt =====
-- The inner loop ends, with a cycle or with what it has seen in an order that has none.
use block_type.Prelude.{
  ℕ, zero, suc, ◌+◌, ◌-◌, ◌*◌, ◌≡◌, ◌≤◌, ◌<◌, ◌⊎◌, inl, inr, refl, ◌∙◌, Bool, true, false, not,
  some, List, [], ◌∷◌, ◌==◌, ltb, arith, Bool-cases, length, get_or,
}
use block_type.Prelude.Maps.{nat_key, insert}
use block_type.Query.Graph.{DependencyGraph, get_dependencies}
use block_type.Query.Graph.Reach.{Reach}
use block_type.Query.Graph.Pending.{pending, pending_mono, pending_next}
use block_type.Query.Cycle.{color_of, Frame, back_edge, go_on, advance, round, search}
use block_type.Query.Cycle.Round.{
  IsSearch, color_of-insert, push-IsSearch, pass-IsSearch, pop-IsSearch, cycle-Reach,
}

-- What the search has still to do: frames, and both kinds of edges that are not passed.
abbrev pub seen : List (ℕ × ℕ) → ℕ → Bool
seen colors v = not (color_of v colors == 0)

unfoldable pub unpassed : DependencyGraph → List Frame → ℕ
unpassed g [] = 0
unpassed g (f ∷ below) = length (get_dependencies g f.node) - f.dep_idx + unpassed g below

abbrev pub to_do : DependencyGraph → List (ℕ × ℕ) → List Frame → ℕ
to_do g colors stack =
    length stack + 2 * unpassed g stack + 2 * pending (seen colors) g.dependencies

push-less :
    (g : DependencyGraph) (colors : List (ℕ × ℕ)) (f top : Frame) (below : List Frame) (dep : ℕ)
    → f.dep_idx < length (get_dependencies g f.node)
    → top ≡ record f { dep_idx = f.dep_idx + 1 }
    → (color_of dep colors == 0) ≡ true
    → to_do g (insert dep 1 colors) (record { node = dep; dep_idx = 0 } ∷ top ∷ below)
      < to_do g colors (f ∷ below)
unfolding unpassed get_dependencies
push-less g colors f top below dep more e white = rw e (
    omega (
      arith,
      more,
      pending_next dep (seen colors) (seen (insert dep 1 colors)) g.dependencies (ground arith)
          (λ k. ground (arith, color_of-insert dep k 1 colors)),
    ))

pop-less :
    (g : DependencyGraph) (colors : List (ℕ × ℕ)) (f : Frame) (below : List Frame)
    → to_do g (insert f.node 2 colors) below < to_do g colors (f ∷ below)
unfolding unpassed
pop-less g colors f below = omega (
  arith,
  pending_mono (seen colors) (seen (insert f.node 2 colors)) g.dependencies
      (λ k h. ground (arith, color_of-insert f.node k 2 colors)),
)

-- A round that goes on has less to do, and forgets no node.
record Round (g : DependencyGraph) (colors : List (ℕ × ℕ)) (f : Frame) (below : List Frame)
    : Type 0 where
  colors' : List (ℕ × ℕ)
  stack' : List Frame
  order' : List ℕ
  goes : round g colors f below ≡ go_on colors' stack'
  still : IsSearch g colors' stack' order'
  less : to_do g colors' stack' < to_do g colors (f ∷ below)
  keeps : (v : ℕ) → seen colors v ≡ true → seen colors' v ≡ true

round-Round :
    (g : DependencyGraph) (colors : List (ℕ × ℕ)) (f : Frame) (below : List Frame) (order : List ℕ)
    → IsSearch g colors (f ∷ below) order
    → ((round g colors f below ≡ back_edge) × ((v : ℕ) × Reach (get_dependencies g) v v))
      ⊎ Round g colors f below
unfolding round advance unpassed
round-Round g colors f below order ok =
    let deps = get_dependencies g f.node in
    let dep = get_or deps f.dep_idx 0 in
    elim (Bool-cases (ltb f.dep_idx (length deps))) [
      | inl more ↦ elim (Bool-cases (color_of dep colors == 0)) [
        | inl white ↦ inr (record {
          colors' = insert dep 1 colors;
          stack' = _;
          order' = order;
          goes = rw (more, white) refl;
          still = push-IsSearch g colors f below order ok (ground arith) (ground arith);
          less = push-less g colors f _ below dep (ground arith) refl white;
          keeps = λ v h. ground (arith, color_of-insert dep v 1 colors);
        })
        | inr seen ↦ elim (Bool-cases (color_of dep colors == 1)) [
          | inl gray ↦ inl (
            rw (more, seen, gray) refl,
            (dep, cycle-Reach g colors f below order ok (ground arith) (ground arith)),
          )
          | inr black ↦ inr (record {
            colors' = colors;
            stack' = _;
            order' = order;
            goes = rw (more, seen, black) refl;
            still =
                pass-IsSearch g colors f below order ok (ground arith)
                  (ground (arith, ok.valued dep));
            less = (let lt : f.dep_idx < length deps = ground arith in omega arith);
            keeps = λ v h. h;
          })
        ]
      ]
      | inr all ↦ inr (record {
        colors' = insert f.node 2 colors;
        stack' = below;
        order' = f.node ∷ order;
        goes = rw all refl;
        still = pop-IsSearch g colors f below order ok (ground arith);
        less = pop-less g colors f below;
        keeps = λ v h. ground (arith, color_of-insert f.node v 2 colors);
      })
    ]

-- The search from a stack: a cycle, or an order of all nodes that it has seen.
pub record Finished (g : DependencyGraph) (colors : List (ℕ × ℕ)) : Type 0 where
  pub colors' : List (ℕ × ℕ)
  pub order' : List ℕ
  pub still : IsSearch g colors' [] order'
  pub keeps : (v : ℕ) → seen colors v ≡ true → seen colors' v ≡ true

search_stop :
    (n : ℕ) (g : DependencyGraph) (colors : List (ℕ × ℕ)) (f : Frame) (below : List Frame)
    → round g colors f below ≡ back_edge
    → search (suc n) g colors (f ∷ below) ≡ some (true, colors)
unfolding search
search_stop n g colors f below e = rw (search, e) refl

search_next :
    (n : ℕ) (g : DependencyGraph) (colors : List (ℕ × ℕ)) (f : Frame) (below : List Frame)
    (colors' : List (ℕ × ℕ)) (stack : List Frame)
    → round g colors f below ≡ go_on colors' stack
    → search (suc n) g colors (f ∷ below) ≡ search n g colors' stack
unfolding search
search_next n g colors f below colors' stack e = rw (search, e) refl

pub search_ends :
    (n : ℕ) (g : DependencyGraph) (colors : List (ℕ × ℕ)) (stack : List Frame) (order : List ℕ)
    → IsSearch g colors stack order
    → to_do g colors stack ≤ n
    → ((c : List (ℕ × ℕ)) × (search n g colors stack ≡ some (true, c))
        × ((v : ℕ) × Reach (get_dependencies g) v v))
      ⊎ ((done : Finished g colors) × (search n g colors stack ≡ some (false, done.colors')))
unfolding search
search_ends n g colors [] order ok enough =
    inr (record { colors' = colors; order' = order; still = ok; keeps = λ v h. h }, refl)
search_ends zero g colors (f ∷ below) order ok enough = absurd (omega arith)
search_ends (suc n) g colors (f ∷ below) order ok enough =
    elim (round-Round g colors f below order ok) [
      | inl (e, cycle) ↦ inl (colors, search_stop n g colors f below e, cycle)
      | inr r ↦ elim (search_ends n g r.colors' r.stack' r.order' r.still (omega (arith, r.less))) [
        | inl (c, e, cycle) ↦
            inl (c, search_next n g colors f below r.colors' r.stack' r.goes ∙ e, cycle)
        | inr (done, e) ↦ inr (
          record {
            colors' = done.colors';
            order' = done.order';
            still = done.still;
            keeps = λ v h. done.keeps v (r.keeps v h);
          },
          search_next n g colors f below r.colors' r.stack' r.goes ∙ e,
        )
      ]
    ]
