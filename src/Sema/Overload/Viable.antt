-- ===== src/Sema/Overload/Viable.antt =====
-- What `checkViability` leaves behind: a viable candidate has a rank for each argument.
use block_type.Prelude.{
  ℕ, suc, ◌≡◌, refl, ap, Bool, true, false, ◌&&◌, Option, none, some, List, [], ◌∷◌, map, arith,
  length, length-map, All, Bool-cases, inl, inr,
}
use block_type.Sema.Types.{QualType, Classes, ParmVarDecl}
use block_type.Sema.Conversion.Ranks.{ImplicitConversionSequence}
use block_type.Sema.Overload.{
  variadic_of, check_declared, FunctionDecl, OverloadCandidate, check_viability, check_function,
  check_conversions, convert_args, fail, rank_of,
}
use block_type.Sema.Overload.Resolve.{Numbered, number_from, check_candidate, get_viable}

abbrev pub HasArgs : ℕ → Numbered → Type 0
HasArgs n c = length c.1.arg_ranks ≡ n

length-convert_args :
    (classes : Classes) (args : List QualType) (ps : List ParmVarDecl)
    → length (convert_args classes args ps) ≡ length args
unfolding convert_args
length-convert_args classes [] ps = refl
length-convert_args classes (a ∷ as') [] = ap suc (length-convert_args classes as' [])
length-convert_args classes (a ∷ as') (p ∷ ps) = ap suc (length-convert_args classes as' ps)

check_conversions-length :
    (n : ℕ) (ss : List ImplicitConversionSequence) (c : OverloadCandidate)
    → length ss ≡ n
    → (check_conversions ss c).viable ≡ true
    → length (check_conversions ss c).arg_ranks ≡ n
unfolding check_conversions fail
check_conversions-length n ss c e h = ground (arith, length-map ss rank_of)

check_function-length :
    (classes : Classes) (args : List QualType) (f : FunctionDecl) (v : Option Bool)
    (c : OverloadCandidate)
    → (check_function classes args f v c).viable ≡ true
    → length (check_function classes args f v c).arg_ranks ≡ length args
unfolding check_function fail
check_function-length classes args f none c h = absurd (ground arith)
check_function-length classes args f (some v) c h =
    let go =
      check_conversions-length (length args) (convert_args classes args f.params) c
        (length-convert_args classes args f.params) in
    ground (arith, go)

check_declared-length :
    (classes : Classes) (args : List QualType) (f : Option FunctionDecl) (c : OverloadCandidate)
    → (check_declared classes args f c).viable ≡ true
    → length (check_declared classes args f c).arg_ranks ≡ length args
unfolding check_declared fail
check_declared-length classes args none c h = absurd (ground arith)
check_declared-length classes args (some f) c h =
    ground (arith, check_function-length classes args f (variadic_of f.type.ty) c)

check_viability-length :
    (classes : Classes) (args : List QualType) (c : OverloadCandidate)
    → (check_viability classes args c).viable ≡ true
    → length (check_viability classes args c).arg_ranks ≡ length args
unfolding check_viability
check_viability-length classes args c = check_declared-length classes args c.function_decl c

-- A candidate whose deduction failed was never marked viable.
abbrev pub FailedIsOut : OverloadCandidate → Type 0
FailedIsOut c = c.is_deduction_failure && c.viable ≡ false

check_candidate-length :
    (classes : Classes) (args : List QualType) (c : OverloadCandidate)
    → FailedIsOut c
    → (check_candidate classes args c).viable ≡ true
    → length (check_candidate classes args c).arg_ranks ≡ length args
unfolding check_candidate
check_candidate-length classes args c out h = ground (arith, check_viability-length classes args c)

pub viable_candidates-length :
    (classes : Classes) (args : List QualType) (n : ℕ) (cs : List OverloadCandidate)
    → All FailedIsOut cs
    → All
        (HasArgs (length args))
        (get_viable (number_from n (map (check_candidate classes args) cs)))
unfolding get_viable number_from
viable_candidates-length classes args n [] h = tt
viable_candidates-length classes args n (c ∷ cs) (out, h) =
    let rest = viable_candidates-length classes args (suc n) cs h in
    elim (Bool-cases (check_candidate classes args c).viable) [
      | inl stays_in ↦ rw stays_in (check_candidate-length classes args c out stays_in, rest)
      | inr drops ↦ rw drops rest
    ]
