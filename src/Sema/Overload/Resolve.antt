-- ===== src/Sema/Overload/Resolve.antt =====
-- `resolve` of src/Sema/Overload.cpp. A pointer to a candidate is its number in the set.
use block_type.Prelude.{
  ℕ, suc, Bool, true, false, not, ◌&&◌, ◌||◌, Option, none, some, List, [], ◌∷◌, map, ◌==◌,
  if◌then◌else◌,
}
use block_type.Prelude.Int.{ℤ, is_pos, is_zero}
use block_type.Sema.Types.{QualType, Classes}
use block_type.Sema.Overload.{
  FunctionDecl, OverloadCandidate, check_viability, compare_candidates, is_some,
}

pub data OverloadResult : Type 0 where
  success no_viable ambiguous deleted : OverloadResult

abbrev pub Numbered : Type 0
Numbered = ℕ × OverloadCandidate

unfoldable pub number_from : ℕ → List OverloadCandidate → List Numbered
number_from n [] = []
number_from n (c ∷ cs) = (n, c) ∷ number_from (suc n) cs

-- Step 1: candidates whose deduction failed are left as they are.
unfoldable pub check_candidate : Classes → List QualType → OverloadCandidate → OverloadCandidate
check_candidate classes args c =
    if c.is_deduction_failure then c else check_viability classes args c

-- `getViableCandidates`
unfoldable pub get_viable : List Numbered → List Numbered
get_viable [] = []
get_viable ((n, c) ∷ cs) = let rest = get_viable cs in if c.viable then (n, c) ∷ rest else rest

unfoldable pub viable_candidates : Classes → List QualType → List OverloadCandidate → List Numbered
viable_candidates classes args cs =
    get_viable (number_from 0 (map (check_candidate classes args) cs))

-- The first pass: the best so far, and whether it may be ambiguous.
unfoldable pub select_loop : Numbered → Bool → List Numbered → Numbered × Bool
select_loop best amb [] = (best, amb)
select_loop best amb (c ∷ cs) =
    let z = compare_candidates best.1 c.1 in
    select_loop (if is_pos z then c else best)
      (if is_pos z then false else if is_zero z then true else amb) cs

-- The second pass: some other candidate ties with the best.
unfoldable pub ties : Numbered → List Numbered → Bool
ties best [] = false
ties best (c ∷ cs) = not (c.0 == best.0) && is_zero (compare_candidates best.1 c.1) || ties best cs

-- The third pass, over the constraints of templates; `none` is the ambiguous return.
unfoldable pub constraint_step : (ℕ → ℕ → ℤ) → Numbered → Numbered → Option Numbered
constraint_step checker best c = elim best.1.template [
  | none ↦ some best
  | some t ↦ elim c.1.template [
    | none ↦ some best
    | some u ↦
        let z = checker t u in if is_pos z then some c else if is_zero z then none else some best
  ]
]

unfoldable pub constraint_loop : (ℕ → ℕ → ℤ) → Numbered → List Numbered → Option Numbered
constraint_loop checker best [] = some best
constraint_loop checker best (c ∷ cs) =
    let next = constraint_step checker best c in
    if not (c.0 == best.0) && is_zero (compare_candidates best.1 c.1)
    then elim next [ none ↦ none | some b ↦ constraint_loop checker b cs ]
    else constraint_loop checker best cs

unfoldable pub break_by_constraints :
    Option (ℕ → ℕ → ℤ) → Numbered → List Numbered → Option Numbered
break_by_constraints none best viable = some best
break_by_constraints (some checker) best viable =
    if is_some best.1.template then constraint_loop checker best viable else some best

unfoldable pub answer_decl : Option FunctionDecl → OverloadResult × Option FunctionDecl
answer_decl none = (success, none)
answer_decl (some f) = if f.is_deleted_method then (deleted, some f) else (success, some f)

unfoldable pub answer : Numbered → OverloadResult × Option FunctionDecl
answer best = answer_decl best.1.function_decl

unfoldable pub finish :
    Option (ℕ → ℕ → ℤ) → List Numbered → Numbered × Bool → OverloadResult × Option FunctionDecl
finish checker viable (best, amb) =
    if amb || ties best viable
    then (ambiguous, none)
    else elim (break_by_constraints checker best viable) [
      | none ↦ (ambiguous, none)
      | some b ↦ answer b
    ]

unfoldable pub resolve_among :
    Option (ℕ → ℕ → ℤ) → List Numbered → OverloadResult × Option FunctionDecl
resolve_among checker [] = (no_viable, none)
resolve_among checker (c ∷ []) = answer c
resolve_among checker (c ∷ d ∷ cs) = finish checker (c ∷ d ∷ cs) (select_loop c false (d ∷ cs))

-- `resolve`
unfoldable pub resolve :
    Classes
    → Option (ℕ → ℕ → ℤ)
    → List QualType
    → List OverloadCandidate
    → OverloadResult × Option FunctionDecl
resolve classes checker args cs = resolve_among checker (viable_candidates classes args cs)
