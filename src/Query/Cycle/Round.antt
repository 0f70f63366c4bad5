-- ===== src/Query/Cycle/Round.antt =====
-- One round of the search keeps its invariant, or shows a cycle.
use block_type.Prelude.{
  ℕ, zero, suc, ◌+◌, ◌≡◌, ◌≤◌, ◌<◌, ◌⊎◌, inl, inr, refl, true, false, ◌||◌, none, List, [], ◌∷◌,
  ◌==◌, if◌then◌else◌, arith, Bool-cases, take, length, get_or,
}
use block_type.Prelude.Maps.{nat_key, insert, lookup-insert}
use block_type.Query.Graph.{DependencyGraph, found, get_dependencies}
use block_type.Query.Graph.Reach.{Reach}
use block_type.Query.Cycle.{color_of, Frame}
use block_type.Query.Cycle.Order.{IsOrdered}
use block_type.Query.Cycle.Stack.{
  on_stack, IsDistinct, Links, Linked, Links-Linked, on_stack-Reach, AllPassed, AllPassed-finish,
}

pub color_of-insert :
    (k j c : ℕ) (colors : List (ℕ × ℕ))
    → color_of j (insert k c colors) ≡ (if k == j then c else color_of j colors)
unfolding color_of
color_of-insert k j c colors = ground (arith, lookup-insert k j c colors)

-- The next element of a list is in it, and passing it adds it to those in front.
found-get_or : (i : ℕ) (l : List ℕ) → i < length l → found (get_or l i 0) l ≡ true
unfolding found
found-get_or i [] h = absurd (omega arith)
found-get_or zero (x ∷ l) h = ground arith
found-get_or (suc i) (x ∷ l) h = ground (arith, found-get_or i l (omega arith))

found-take-suc :
    (d i : ℕ) (l : List ℕ)
    → i < length l
    → found d (take (suc i) l) ≡ (found d (take i l) || get_or l i 0 == d)
unfolding found
found-take-suc d i [] h = absurd (omega arith)
found-take-suc d zero (x ∷ l) h = ground arith
found-take-suc d (suc i) (x ∷ l) h = ground (arith, found-take-suc d i l (omega arith))

found-take_next :
    (d i : ℕ) (l : List ℕ)
    → i < length l
    → found d (take (i + 1) l) ≡ (found d (take i l) || get_or l i 0 == d)
found-take_next d i l h = let e : i + 1 ≡ suc i = omega arith in rw e (found-take-suc d i l h)

found-take_all : (d i : ℕ) (l : List ℕ) → length l ≤ i → found d (take i l) ≡ found d l
unfolding found
found-take_all d zero [] h = refl
found-take_all d zero (x ∷ l) h = absurd (omega arith)
found-take_all d (suc i) [] h = refl
found-take_all d (suc i) (x ∷ l) h = ground (arith, found-take_all d i l (omega arith))

-- The colours say what is on the stack and what is finished; `order` has the finished nodes, the
-- latest first.
pub record IsSearch (g : DependencyGraph) (colors : List (ℕ × ℕ)) (stack : List Frame)
    (order : List ℕ) : Type 0 where
  pub gray : (v : ℕ) → (color_of v colors == 1) ≡ on_stack v stack
  pub black : (v : ℕ) → (color_of v colors == 2) ≡ found v order
  pub valued : (v : ℕ) → color_of v colors ≤ 2
  pub distinct : IsDistinct stack
  pub linked : Linked g stack
  pub passed : AllPassed g order none stack
  pub ordered : IsOrdered (get_dependencies g) order

module _ (g : DependencyGraph) (colors : List (ℕ × ℕ)) (f : Frame) (below : List Frame)
    (order : List ℕ) (ok : IsSearch g colors (f ∷ below) order) where
  abbrev deps : List ℕ
  deps = get_dependencies g f.node

  abbrev dep : ℕ
  dep = get_or deps f.dep_idx 0

  abbrev top : Frame
  top = record f { dep_idx = f.dep_idx + 1 }

  on_stack_color : (v : ℕ) → (color_of v colors == 1) ≡ (f.node == v || on_stack v below)
  unfolding on_stack
  on_stack_color v = ok.gray v

  white_new :
      color_of dep colors ≡ 0
      → (v : ℕ) → (dep == v) ≡ true
      → (on_stack v (f ∷ below) ≡ false) × (found v order ≡ false)
  white_new white v e =
      let same : dep ≡ v = ground arith in
      let white' : color_of v colors ≡ 0 = rw same at white in ground (arith, ok.gray v, ok.black v)

  passed_next :
      f.dep_idx < length deps
      → (d : ℕ) → found d (take (f.dep_idx + 1) deps) ≡ true
      → (found d order ≡ true) ⊎ (dep ≡ d)
  unfolding AllPassed
  passed_next more d h = elim (Bool-cases (found d (take f.dep_idx deps))) [
    | inl before ↦ elim (ok.passed.0 d before) [ inl e ↦ inl e | inr e ↦ absurd cc ]
    | inr now ↦ inr (ground (arith, found-take_next d f.dep_idx deps more))
  ]

  pub push-IsSearch :
      f.dep_idx < length deps
      → color_of dep colors ≡ 0
      → IsSearch g (insert dep 1 colors) (record { node = dep; dep_idx = 0 } ∷ top ∷ below) order
  unfolding on_stack IsDistinct Links Linked AllPassed found
  push-IsSearch more white = record {
    gray = λ v. ground (arith, color_of-insert dep v 1 colors, on_stack_color v);
    black = λ v. ground (arith, color_of-insert dep v 1 colors, ok.black v, white_new white v);
    valued = λ v. ground (arith, color_of-insert dep v 1 colors, ok.valued v);
    distinct = ((white_new white dep (ground arith)).0, ok.distinct);
    linked = (found-get_or f.dep_idx deps more, ok.linked);
    passed = (
      λ d h. absurd cc,
      (λ d h. elim (passed_next more d h) [ inl e ↦ inl e | inr e ↦ inr (cc e) ], ok.passed.1),
    );
    ordered = ok.ordered;
  }

  pub pass-IsSearch :
      f.dep_idx < length deps → color_of dep colors ≡ 2 → IsSearch g colors (top ∷ below) order
  unfolding on_stack IsDistinct Links Linked AllPassed found
  pass-IsSearch more finished = record {
    gray = on_stack_color;
    black = ok.black;
    valued = ok.valued;
    distinct = ok.distinct;
    linked = ok.linked;
    passed = (
      λ d h. elim (passed_next more d h) [
        | inl e ↦ inl e
        | inr e ↦
            inl (let done : color_of d colors ≡ 2 = rw e at finished in ground (arith, ok.black d))
      ],
      ok.passed.1,
    );
    ordered = ok.ordered;
  }

  pub pop-IsSearch :
      length deps ≤ f.dep_idx → IsSearch g (insert f.node 2 colors) below (f.node ∷ order)
  unfolding on_stack IsDistinct Links AllPassed found IsOrdered Linked
  pop-IsSearch all = record {
    gray = λ v. elim (Bool-cases (f.node == v)) [
      | inl here ↦
          let same : f.node ≡ v = ground arith in
          let off : on_stack v below ≡ false = rw same at ok.distinct.0 in
          ground (arith, color_of-insert f.node v 2 colors)
      | inr other ↦ ground (arith, color_of-insert f.node v 2 colors, on_stack_color v)
    ];
    black = λ v. ground (arith, color_of-insert f.node v 2 colors, ok.black v);
    valued = λ v. ground (arith, color_of-insert f.node v 2 colors, ok.valued v);
    distinct = ok.distinct.1;
    linked = Links-Linked g f.node below ok.linked;
    passed = AllPassed-finish g order f.node below ok.passed.1;
    ordered = (
      λ d h. elim (ok.passed.0 d (ground (arith, found-take_all d f.dep_idx deps all))) [
        | inl e ↦ e
        | inr e ↦ absurd cc
      ],
      ok.ordered,
    );
  }

  pub cycle-Reach :
      f.dep_idx < length deps → color_of dep colors ≡ 1 → Reach (get_dependencies g) dep dep
  unfolding Links Linked
  cycle-Reach more gray =
      on_stack-Reach g dep (f ∷ below) (found-get_or f.dep_idx deps more, ok.linked) dep
        (ground (arith, ok.gray dep))
