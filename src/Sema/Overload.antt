-- ===== src/Sema/Overload.antt =====
-- src/Sema/Overload.cpp: candidates, their viability and comparison, and `resolve`. The arguments of a
-- call are their types; the constraint checker's comparison of two templates is a parameter.
pub mod Compare
pub mod Resolve
pub mod Viable
pub mod Winner
mod Examples
use block_type.Prelude.{
  ℕ, zero, suc, ◌+◌, Bool, true, false, not, ◌&&◌, ◌||◌, Option, none, some, List, [], ◌∷◌, ◌++◌,
  map, max, ◌==◌, ltb, if◌then◌else◌, length,
}
use Prim.Native.String.{String}
use block_type.Prelude.Int.{ℤ, pos, negsuc, is_neg, is_pos, is_zero}
use block_type.Sema.Types.{Ty, function, QualType, ParmVarDecl, Classes}
use block_type.Sema.Conversion.Ranks.{
  ConversionRank, rank_value, ImplicitConversionSequence, get_ellipsis, get_bad, is_bad,
  compare_implicit,
}
use block_type.Sema.Conversion.Sequences.{get_conversion, is_null, required_params}

pub record FunctionDecl : Type 0 where
  pub address : ℕ
  pub type : QualType
  pub params : List ParmVarDecl
  -- whether it is a `CXXMethodDecl` that is deleted
  pub is_deleted_method : Bool

pub record OverloadCandidate : Type 0 where
  pub function_decl : Option FunctionDecl
  pub template : Option ℕ
  pub arg_ranks : List ConversionRank
  pub conversion_sequences : List ImplicitConversionSequence
  pub viable : Bool
  pub failure_reason : String
  pub is_deduction_failure : Bool

-- `addCandidate` and `addTemplateCandidate`
unfoldable pub add_candidate :
    FunctionDecl → Option ℕ → List OverloadCandidate → List OverloadCandidate
add_candidate f t cs =
    cs
    ++ record {
      function_decl = some f;
      template = t;
      arg_ranks = [];
      conversion_sequences = [];
      viable = false;
      failure_reason = "";
      is_deduction_failure = false;
    }
      ∷ []

-- Whether a function type is variadic; `none` for any other type.
unfoldable pub variadic_of : Option Ty → Option Bool
variadic_of (some (function a v)) = some v
variadic_of _ = none

unfoldable pub fail : String → OverloadCandidate → OverloadCandidate
fail reason c = record c { viable = false; failure_reason = reason }

-- The conversion of one argument; beyond the parameters it goes through the ellipsis.
unfoldable pub convert_arg : Classes → QualType → List ParmVarDecl → ImplicitConversionSequence
convert_arg classes a [] = if is_null a then get_bad else get_ellipsis
convert_arg classes a (p ∷ ps) = if is_null a then get_bad else get_conversion classes a p.type

unfoldable pub convert_args :
    Classes → List QualType → List ParmVarDecl → List ImplicitConversionSequence
convert_args classes [] ps = []
convert_args classes (a ∷ as') [] = convert_arg classes a [] ∷ convert_args classes as' []
convert_args classes (a ∷ as') (p ∷ ps) =
    convert_arg classes a (p ∷ ps) ∷ convert_args classes as' ps

unfoldable pub rank_of : ImplicitConversionSequence → ConversionRank
rank_of s = if is_bad s then ConversionRank.bad_conversion else s.rank

unfoldable pub all_valid : List ImplicitConversionSequence → Bool
all_valid [] = true
all_valid (s ∷ ss) = not (is_bad s) && all_valid ss

-- The conversions, once the number of arguments fits.
unfoldable pub check_conversions :
    List ImplicitConversionSequence → OverloadCandidate → OverloadCandidate
check_conversions ss c =
    let c' = record c { arg_ranks = map rank_of ss; conversion_sequences = ss } in
    if all_valid ss
    then record c' { viable = true; failure_reason = "" }
    else fail "no viable conversion for one or more arguments" c'

unfoldable pub check_function :
    Classes → List QualType → FunctionDecl → Option Bool → OverloadCandidate → OverloadCandidate
check_function classes args f none c = fail "not a function type" c
check_function classes args f (some variadic) c =
    if ltb (length args) (required_params f.params)
    then fail "too few arguments" c
    else if not variadic && ltb (length f.params) (length args)
    then fail "too many arguments" c
    else check_conversions (convert_args classes args f.params) c

unfoldable pub check_declared :
    Classes → List QualType → Option FunctionDecl → OverloadCandidate → OverloadCandidate
check_declared classes args none c = fail "null function declaration" c
check_declared classes args (some f) c =
    if is_null f.type
    then fail "function has no type" c
    else check_function classes args f (variadic_of f.type.ty) c

-- `checkViability`
unfoldable pub check_viability : Classes → List QualType → OverloadCandidate → OverloadCandidate
check_viability classes args c = check_declared classes args c.function_decl c

-- Whether this candidate, and whether the other, is better for some argument.
pub record Votes : Type 0 where
  pub this_better : Bool
  pub other_better : Bool

-- The verdict of one argument: negative for this candidate, positive for the other.
unfoldable pub vote :
    ConversionRank
    → ConversionRank
    → Option ImplicitConversionSequence
    → Option ImplicitConversionSequence
    → ℤ
vote r q s t =
    if ltb (rank_value r) (rank_value q)
    then negsuc 0
    else if ltb (rank_value q) (rank_value r)
    then pos 1
    else elim s [
      | none ↦ pos 0
      | some s' ↦ elim t [ none ↦ pos 0 | some t' ↦ compare_implicit s' t' ]
    ]

unfoldable pub cast : ℤ → Votes → Votes
cast z v = record {
  this_better = v.this_better || is_neg z;
  other_better = v.other_better || is_pos z;
}

unfoldable pub first_rank : List ConversionRank → ConversionRank
first_rank [] = ConversionRank.bad_conversion
first_rank (r ∷ rs) = r

unfoldable pub first_sequence : List ImplicitConversionSequence → Option ImplicitConversionSequence
first_sequence [] = none
first_sequence (s ∷ ss) = some s

unfoldable pub rest_of {ℓ} : {A : Type ℓ} → List A → List A
rest_of [] = []
rest_of (x ∷ xs) = xs

-- The loop over the arguments, at most `rounds` of them.
unfoldable pub vote_loop :
    ℕ
    → List ConversionRank
    → List ConversionRank
    → List ImplicitConversionSequence
    → List ImplicitConversionSequence
    → Votes
    → Votes
vote_loop zero rs qs ss ts v = v
vote_loop (suc rounds) [] qs ss ts v = v
vote_loop (suc rounds) (r ∷ rs) qs ss ts v =
    vote_loop rounds rs (rest_of qs) (rest_of ss) (rest_of ts)
      (cast (vote r (first_rank qs) (first_sequence ss) (first_sequence ts)) v)

unfoldable pub is_some {ℓ} : {A : Type ℓ} → Option A → Bool
is_some none = false
is_some (some a) = true

-- The tie-breakers: variadic, number of parameters, template.
unfoldable pub break_variadic : Option Bool → Option Bool → ℤ
break_variadic (some false) (some true) = negsuc 0
break_variadic (some true) (some false) = pos 1
break_variadic _ _ = pos 0

unfoldable pub break_tie : FunctionDecl → FunctionDecl → Option ℕ → Option ℕ → ℤ
break_tie f g t u =
    let z = break_variadic (variadic_of f.type.ty) (variadic_of g.type.ty) in
    if not (is_zero z)
    then z
    else if ltb (length f.params) (length g.params)
    then negsuc 0
    else if ltb (length g.params) (length f.params)
    then pos 1
    else if not (is_some t) && is_some u
    then negsuc 0
    else if is_some t && not (is_some u)
    then pos 1
    else pos 0

-- Better for some argument and worse for none; else the tie-breakers.
unfoldable pub verdict : Votes → ℤ → ℤ
verdict v z =
    if v.this_better && not v.other_better
    then negsuc 0
    else if v.other_better && not v.this_better
    then pos 1
    else z

unfoldable pub compare_functions :
    FunctionDecl → FunctionDecl → OverloadCandidate → OverloadCandidate → ℤ
compare_functions f g c d =
    let v =
      vote_loop (max (length f.params) (length g.params)) c.arg_ranks d.arg_ranks
        c.conversion_sequences d.conversion_sequences
        (record { this_better = false; other_better = false }) in
    verdict v (break_tie f g c.template d.template)

-- `OverloadCandidate::compare`
unfoldable pub compare_candidates : OverloadCandidate → OverloadCandidate → ℤ
compare_candidates c d = elim c.function_decl [
  | none ↦ pos 0
  | some f ↦ elim d.function_decl [ none ↦ pos 0 | some g ↦ compare_functions f g c d ]
]
