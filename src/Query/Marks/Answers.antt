-- ===== src/Query/Marks/Answers.antt =====
-- A call for a node ends, and its colour says whether all that the node needs has a fingerprint.
use block_type.Prelude.{
  ap, ℕ, zero, suc, ◌≤◌, ◌≡◌, ◌⊎◌, inl, inr, refl, ◌∙◌, Bool, true, false, none, some, List, [],
  ◌∷◌, ◌==◌, arith, Bool-cases, length,
}
use block_type.Prelude.Maps.{nat_key, lookup, insert}
use block_type.Query.Graph.{DependencyGraph, found}
use block_type.Query.Cycle.{has_cycle}
use block_type.Query.Cycle.Order.{IsOrdered}
use block_type.Query.Marks.{
  MarkColor, green, red, unknown, Marks, get_mark, reset, deps_green, compare_fingerprints,
  try_mark_green,
}
use block_type.Query.Cycle.Whole.{cycle_free-order}
use block_type.Query.Marks.Settled.{
  ends, recorded, AllRecorded, Missing, IsSettled, Answers, Needs-first, Needs-cons,
  insert-IsSettled, fingerprint_compared, DepsSay, DepsAnswer, deps_green-Answers, mark-cases,
}

module _ (g : DependencyGraph) where
  module _ (n v : ℕ) (marks : Marks) where
    try_mark_green-marked :
        (c : MarkColor)
        → (c ≡ green) ⊎ (c ≡ red)
        → get_mark marks v ≡ c
        → try_mark_green (suc n) g marks v ≡ some (c, marks)
    unfolding try_mark_green
    try_mark_green-marked c (inl e) h = rw e (rw (try_mark_green, rw e at h) refl)
    try_mark_green-marked c (inr e) h = rw e (rw (try_mark_green, rw e at h) refl)

    try_mark_green-fails :
        (marks' : Marks)
        → get_mark marks v ≡ unknown
        → deps_green (try_mark_green n g) marks (ends g v) ≡ some (false, marks')
        → try_mark_green (suc n) g marks v ≡ some (red, insert v red marks')
    unfolding try_mark_green
    try_mark_green-fails marks' h e = rw (try_mark_green, h, e) refl

    try_mark_green-compares :
        (marks' : Marks)
        → get_mark marks v ≡ unknown
        → deps_green (try_mark_green n g) marks (ends g v) ≡ some (true, marks')
        → try_mark_green (suc n) g marks v ≡ some (compare_fingerprints g marks' v)
    unfolding try_mark_green
    try_mark_green-compares marks' h e = rw (try_mark_green, h, e) refl

    compare_fingerprints-recorded :
        (marks' : Marks)
        → recorded g v ≡ true
        → compare_fingerprints g marks' v ≡ (green, insert v green marks')
    unfolding compare_fingerprints
    compare_fingerprints-recorded marks' h = rw (fingerprint_compared g v, h) refl

    compare_fingerprints-missing :
        (marks' : Marks)
        → recorded g v ≡ false
        → compare_fingerprints g marks' v ≡ (red, insert v red marks')
    unfolding compare_fingerprints
    compare_fingerprints-missing marks' h = rw (fingerprint_compared g v, h) refl

    answer_deps :
        (b : Bool) (marks' : Marks)
        → get_mark marks v ≡ unknown
        → deps_green (try_mark_green n g) marks (ends g v) ≡ some (b, marks')
        → DepsSay g b (ends g v)
        → IsSettled g marks'
        → Answers g v (try_mark_green (suc n) g marks v)
    unfolding DepsSay
    answer_deps false marks' h e (d, edge, missing) ok =
        let gap : Missing g v = (missing.0, Needs-cons g v d missing.0 edge missing.1, missing.2) in
        (
          red,
          insert v red marks',
          try_mark_green-fails marks' h e,
          inr refl,
          gap,
          insert-IsSettled g v red marks' gap ok,
        )
    answer_deps true marks' h e say ok = elim (Bool-cases (recorded g v)) [
      | inl known ↦
          let all : AllRecorded g v = λ w needs. elim needs [
            | inl same ↦ rw same at known
            | inr r ↦ let (d, edge, needs') = Needs-first g v w r in say d edge w needs'
          ] in
          (
            green,
            insert v green marks',
            try_mark_green-compares marks' h e
                ∙ ap (λ r. some r) (compare_fingerprints-recorded marks' known),
            inl refl,
            all,
            insert-IsSettled g v green marks' all ok,
          )
      | inr gone ↦
          let gap : Missing g v = (v, inl refl, gone) in
          (
            red,
            insert v red marks',
            try_mark_green-compares marks' h e
                ∙ ap (λ r. some r) (compare_fingerprints-missing marks' gone),
            inr refl,
            gap,
            insert-IsSettled g v red marks' gap ok,
          )
    ]

    try_mark_green-known :
        IsSettled g marks
        → DepsAnswer g (ends g v) (deps_green (try_mark_green n g) marks (ends g v))
        → Answers g v (try_mark_green (suc n) g marks v)
    unfolding DepsAnswer
    try_mark_green-known ok (b, marks', e, say, ok') = elim (mark-cases (get_mark marks v)) [
      | inl h ↦
          (green, marks, try_mark_green-marked green (inl refl) h, inl refl, rw h at (ok v), ok)
      | inr (inl h) ↦
          (red, marks, try_mark_green-marked red (inr refl) h, inr refl, rw h at (ok v), ok)
      | inr (inr h) ↦ answer_deps b marks' h e say ok'
    ]

  -- A node of an order is answered in as many levels as the order has nodes.
  try_mark_green-order :
      (order : List ℕ)
      → IsOrdered (ends g) order
      → (n v : ℕ) (marks : Marks) → IsSettled g marks
      → found v order ≡ true
      → length order ≤ n
      → Answers g v (try_mark_green n g marks v)
  unfolding IsOrdered found
  try_mark_green-order [] ordered n v marks ok h enough = absurd cc
  try_mark_green-order (u ∷ rest) ordered zero v marks ok h enough = absurd (omega arith)
  try_mark_green-order (u ∷ rest) ordered (suc n) v marks ok h enough = elim (Bool-cases (u == v)) [
    | inl here ↦
        let same : u ≡ v = ground arith in
        try_mark_green-known n v marks ok (
          deps_green-Answers g (try_mark_green n g) (ends g v) marks ok (λ m d okm e.
            try_mark_green-order rest ordered.1 n d m okm (ordered.0 d (rw same e)) (omega arith)))
    | inr other ↦
        try_mark_green-order rest ordered.1 (suc n) v marks ok (ground arith) (omega arith)
  ]

  -- In a graph without cycles, `tryMarkGreen` returns for every node, from marks that mean what they
  -- say. Its colour is green or red. It is green only if a fingerprint is recorded for the node and
  -- for all that it depends on, and red only if one of them has none; the new marks mean what they
  -- say again. (No fingerprint is compared with an older one.)
  pub try_mark_green-Answers :
      has_cycle g ≡ some false
      → (v : ℕ) (marks : Marks) → IsSettled g marks
      → (depth : ℕ) × Answers g v (try_mark_green depth g marks v)
  unfolding IsOrdered found
  try_mark_green-Answers acyclic v marks ok =
      let (order, ordered, all) = cycle_free-order g acyclic in
      (
        suc (length order),
        try_mark_green-order (v ∷ order) (all v, ordered) (suc (length order)) v marks ok
            (ground arith) (omega arith),
      )

  -- The marks of a new or reset marker mean what they say.
  pub reset-IsSettled : IsSettled g reset
  unfolding reset get_mark lookup
  reset-IsSettled v = tt

  -- A node whose only dependency is itself, and which has no mark, has no answer at any depth: the
  -- recursion does not end.
  pub try_mark_green-endless :
      (n v : ℕ) (marks : Marks)
      → ends g v ≡ v ∷ []
      → get_mark marks v ≡ unknown
      → try_mark_green n g marks v ≡ none
  unfolding try_mark_green deps_green
  try_mark_green-endless zero v marks e h = refl
  try_mark_green-endless (suc n) v marks e h =
      let below = try_mark_green-endless n v marks e h in
      let loop : deps_green (try_mark_green n g) marks (ends g v) ≡ none =
        rw e (rw (deps_green, h, below) refl) in
      rw (try_mark_green, h, loop) refl
