-- ===== src/Query/Marks.antt =====
-- `RedGreenMarker` of src/IR/RedGreenMarker.cpp.
pub mod Settled
pub mod Answers
use block_type.Prelude.{
  ℕ, zero, suc, ◌+◌, Bool, true, false, Option, none, some, List, [], ◌∷◌, if◌then◌else◌,
}
use block_type.Prelude.Maps.{nat_key, lookup, insert}
use block_type.Query.Graph.{
  DependencyGraph, get_dependencies, get_fingerprint, has_fingerprint_changed,
}

pub data MarkColor : Type 0 where
  green red unknown : MarkColor

abbrev pub Marks : Type 0
Marks = List (ℕ × MarkColor)

unfoldable pub get_mark : Marks → ℕ → MarkColor
get_mark marks id = elim (lookup id marks) [ none ↦ unknown | some c ↦ c ]

unfoldable pub mark_red : ℕ → Marks → Marks
mark_red id marks = insert id red marks

unfoldable pub reset : Marks
reset = []

-- The loop over the dependencies; `true` if all are green. `recur` is the recursive call.
unfoldable pub deps_green :
    (Marks → ℕ → Option (MarkColor × Marks)) → Marks → List ℕ → Option (Bool × Marks)
deps_green recur marks [] = some (true, marks)
deps_green recur marks (dep ∷ deps) = elim (get_mark marks dep) [
  | red ↦ some (false, marks)
  | green ↦ deps_green recur marks deps
  | unknown ↦ elim (recur marks dep) [
    | none ↦ none
    | some (red, marks') ↦ some (false, marks')
    | some (_, marks') ↦ deps_green recur marks' deps
  ]
]

-- The comparison of the fingerprints, when all dependencies are green.
unfoldable pub compare_fingerprints : DependencyGraph → Marks → ℕ → MarkColor × Marks
compare_fingerprints g marks id =
    if has_fingerprint_changed g id (get_fingerprint g id)
    then (red, insert id red marks)
    else (green, insert id green marks)

-- `n` bounds the depth of the recursion; `none` is a recursion that goes deeper.
unfoldable pub try_mark_green : ℕ → DependencyGraph → Marks → ℕ → Option (MarkColor × Marks)
try_mark_green zero g marks id = none
try_mark_green (suc n) g marks id = elim (get_mark marks id) [
  | green ↦ some (green, marks)
  | red ↦ some (red, marks)
  | unknown ↦ elim (deps_green (try_mark_green n g) marks (get_dependencies g id)) [
    | none ↦ none
    | some (false, marks') ↦ some (red, insert id red marks')
    | some (true, marks') ↦ some (compare_fingerprints g marks' id)
  ]
]

unfoldable pub get_green_count : Marks → ℕ
get_green_count [] = 0
get_green_count ((id, c) ∷ marks) =
    let rest = get_green_count marks in elim c [ green ↦ 1 + rest | _ ↦ rest ]

unfoldable pub get_red_count : Marks → ℕ
get_red_count [] = 0
get_red_count ((id, c) ∷ marks) =
    let rest = get_red_count marks in elim c [ red ↦ 1 + rest | _ ↦ rest ]
