-- ===== src/Sema/Overload/Examples.antt =====
-- A call with a short to `f(double)`, `f(int)`, a template's `f(int)` and `f(int, int)`; conversion
-- sequences; two reference types.
use block_type.Prelude.{
  ℕ, ◌+◌, ◌≡◌, ◌↔◌, refl, true, false, not, ◌&&◌, ◌||◌, Option, none, some, List, [], ◌∷◌,
}
use block_type.Prelude.Int.{ℤ, pos, is_neg, is_pos}
use block_type.Sema.Types
use block_type.Sema.Types.{
  int, short, double, Ty, builtin, reference, function, QualType, ParmVarDecl, Classes,
}
use block_type.Sema.Conversion
use block_type.Sema.Conversion.Ranks
use block_type.Sema.Conversion.Sequences
use block_type.Sema.Conversion.{same_type}
use block_type.Sema.Conversion.Sequences.{standard_between}
use block_type.Sema.Conversion.Ranks.{
  is_bad_sequence, ConversionRank, identity, lvalue_transformation, StandardConversionSequence,
  ImplicitConversionSequence, get_standard, get_user_defined, get_ellipsis, compare_implicit,
}
use block_type.Sema.Conversion.Standard.{
  same_referenced, slices, is_standard_between, is_standard_between-standard_between,
}
use block_type.Sema.Conversion.Order.{compare_implicit_order}
use block_type.Sema.Overload
use block_type.Sema.Overload.{FunctionDecl, OverloadCandidate, compare_candidates, add_candidate}
use block_type.Sema.Overload.Resolve
use block_type.Sema.Overload.Resolve.{
  OverloadResult, success, Numbered, check_candidate, viable_candidates, answer, resolve,
}
use block_type.Sema.Overload.Winner.{resolve_ignores_checker, resolve-winner}

abbrev int_type : QualType
int_type = record { ty = some (builtin 1 int); quals = 0 }

abbrev short_type : QualType
short_type = record { ty = some (builtin 2 short); quals = 0 }

abbrev double_type : QualType
double_type = record { ty = some (builtin 3 double); quals = 0 }

abbrev parameter : QualType → ParmVarDecl
parameter q = record { type = q; has_default = false }

abbrev function_of : ℕ → List ParmVarDecl → FunctionDecl
function_of a ps = record {
  address = a;
  type = record { ty = some (function (100 + a) false); quals = 0 };
  params = ps;
  is_deleted_method = false;
}

abbrev takes_double : FunctionDecl
takes_double = function_of 10 (parameter double_type ∷ [])

abbrev takes_int : FunctionDecl
takes_int = function_of 11 (parameter int_type ∷ [])

abbrev takes_two : FunctionDecl
takes_two = function_of 12 (parameter int_type ∷ parameter int_type ∷ [])

abbrev candidate : FunctionDecl → Option ℕ → OverloadCandidate
candidate f t = record {
  function_decl = some f;
  template = t;
  arg_ranks = [];
  conversion_sequences = [];
  viable = false;
  failure_reason = "";
  is_deduction_failure = false;
}

abbrev candidates : List OverloadCandidate
candidates =
    candidate takes_double none
    ∷ candidate takes_int none
    ∷ candidate takes_int (some 50)
    ∷ candidate takes_two none
    ∷ []

abbrev checked :
    FunctionDecl → Option ℕ → ConversionRank → Ranks.StandardConversionKind → OverloadCandidate
checked f t r k = record {
  function_decl = some f;
  template = t;
  arg_ranks = r ∷ [];
  conversion_sequences =
      get_standard (record { first = identity; second = identity; third = k; rank = r }) ∷ [];
  viable = true;
  failure_reason = "";
  is_deduction_failure = false;
}

-- The ranks and conversions of the call.
abbrev by_double : OverloadCandidate
by_double =
    checked takes_double none ConversionRank.conversion Ranks.StandardConversionKind.conversion

abbrev by_int : OverloadCandidate
by_int = checked takes_int none ConversionRank.promotion Ranks.StandardConversionKind.promotion

abbrev by_template : OverloadCandidate
by_template =
    checked takes_int (some 50) ConversionRank.promotion Ranks.StandardConversionKind.promotion

viable :
    viable_candidates [] (short_type ∷ []) candidates
    ≡ (0, by_double) ∷ (1, by_int) ∷ (2, by_template) ∷ []
unfolding Types.address Types.is_signed_integer Types.is_unsigned_integer Types.is_wide_or_bool
    Types.is_integer Types.is_floating_point Types.is_integer_type Types.is_floating_type
    Types.is_null_ptr_type Conversion.integer_rank Conversion.same_type Conversion.kind_index
    Conversion.promotes_rank Conversion.promotes_kind Conversion.is_integral_promotion
    Conversion.is_floating_point_promotion Conversion.is_qualification_conversion
    Ranks.is_bad_sequence Ranks.get_standard Ranks.is_bad_kind Ranks.is_bad Sequences.derives_type
    Sequences.is_derived_to_base_ref_conversion Sequences.is_derived_to_base_conversion
    Sequences.is_array_to_pointer_decay Sequences.is_function_to_pointer_decay
    Sequences.integer_and_floating Sequences.value_conversion Sequences.standard_between
    Sequences.get_standard_conversion Sequences.required_from Sequences.required_params
    Sequences.is_null Sequences.get_conversion Overload.variadic_of Overload.fail
    Overload.convert_arg Overload.convert_args Overload.rank_of Overload.all_valid
    Overload.check_conversions Overload.check_function Overload.check_declared
    Overload.check_viability Resolve.number_from Resolve.check_candidate Resolve.get_viable
    Resolve.viable_candidates
viable = refl

int_over_double : is_neg (compare_candidates by_int by_double) ≡ true
unfolding Ranks.rank_value Overload.vote Overload.cast Overload.first_rank Overload.vote_loop
    Overload.verdict Overload.compare_functions Overload.compare_candidates
int_over_double = refl

int_over_template : is_neg (compare_candidates by_int by_template) ≡ true
unfolding Ranks.rank_value Ranks.sub_step_rank Ranks.compare_standard Ranks.kind_priority
    Ranks.get_standard Ranks.is_bad_kind Ranks.is_bad Ranks.compare_same_kind Ranks.compare_implicit
    Overload.variadic_of Overload.vote Overload.cast Overload.first_rank Overload.first_sequence
    Overload.vote_loop Overload.is_some Overload.break_variadic Overload.break_tie Overload.verdict
    Overload.compare_functions Overload.compare_candidates
int_over_template = refl

-- Three functions that beat each other in a circle: by the first argument, or by fewer parameters.
abbrev filled : QualType → ParmVarDecl
filled q = record { type = q; has_default = true }

abbrev fewest : FunctionDecl
fewest = function_of 22 (parameter int_type ∷ parameter double_type ∷ [])

abbrev circle : List OverloadCandidate
circle =
    candidate
      (function_of 20
        (parameter short_type ∷ parameter double_type ∷ filled int_type ∷ filled int_type ∷ []))
      none
    ∷ candidate
        (function_of 21 (parameter double_type ∷ parameter short_type ∷ filled int_type ∷ [])) none
    ∷ candidate fewest none
    ∷ []

-- The last one wins, though the first beats it.
circle_answer : resolve [] none (short_type ∷ short_type ∷ []) circle ≡ (success, some fewest)
unfolding Types.address Types.is_signed_integer Types.is_unsigned_integer Types.is_wide_or_bool
    Types.is_integer Types.is_floating_point Types.is_integer_type Types.is_floating_type
    Types.is_null_ptr_type Conversion.integer_rank Conversion.same_type Conversion.kind_index
    Conversion.promotes_rank Conversion.promotes_kind Conversion.is_integral_promotion
    Conversion.is_floating_point_promotion Conversion.is_qualification_conversion Ranks.rank_value
    Ranks.sub_step_rank Ranks.is_bad_sequence Ranks.compare_standard Ranks.kind_priority
    Ranks.get_standard Ranks.is_bad_kind Ranks.is_bad Ranks.compare_same_kind Ranks.compare_implicit
    Sequences.derives_type Sequences.is_derived_to_base_ref_conversion
    Sequences.is_derived_to_base_conversion Sequences.is_array_to_pointer_decay
    Sequences.is_function_to_pointer_decay Sequences.integer_and_floating Sequences.value_conversion
    Sequences.standard_between Sequences.get_standard_conversion Sequences.required_from
    Sequences.required_params Sequences.is_null Sequences.get_conversion Overload.variadic_of
    Overload.convert_arg Overload.convert_args Overload.rank_of Overload.all_valid
    Overload.check_conversions Overload.check_function Overload.check_declared
    Overload.check_viability Overload.vote Overload.cast Overload.first_rank Overload.first_sequence
    Overload.rest_of Overload.vote_loop Overload.break_variadic Overload.break_tie Overload.verdict
    Overload.compare_functions Overload.compare_candidates Resolve.number_from
    Resolve.check_candidate Resolve.get_viable Resolve.viable_candidates Resolve.select_loop
    Resolve.ties Resolve.break_by_constraints Resolve.answer_decl Resolve.answer Resolve.finish
    Resolve.resolve_among Resolve.resolve
circle_answer = refl

first_over_last :
    is_neg (
      compare_candidates
        (check_candidate [] (short_type ∷ short_type ∷ []) (
          candidate
            (function_of 20 (
              parameter short_type
              ∷ parameter double_type
              ∷ filled int_type
              ∷ filled int_type
              ∷ []))
            none))
        (check_candidate [] (short_type ∷ short_type ∷ []) (candidate fewest none)))
    ≡ true
unfolding Types.address Types.is_signed_integer Types.is_unsigned_integer Types.is_wide_or_bool
    Types.is_integer Types.is_floating_point Types.is_integer_type Types.is_floating_type
    Types.is_null_ptr_type Conversion.integer_rank Conversion.same_type Conversion.kind_index
    Conversion.promotes_rank Conversion.promotes_kind Conversion.is_integral_promotion
    Conversion.is_floating_point_promotion Conversion.is_qualification_conversion Ranks.rank_value
    Ranks.sub_step_rank Ranks.is_bad_sequence Ranks.compare_standard Ranks.kind_priority
    Ranks.get_standard Ranks.is_bad_kind Ranks.is_bad Ranks.compare_same_kind Ranks.compare_implicit
    Sequences.derives_type Sequences.is_derived_to_base_ref_conversion
    Sequences.is_derived_to_base_conversion Sequences.is_array_to_pointer_decay
    Sequences.is_function_to_pointer_decay Sequences.integer_and_floating Sequences.value_conversion
    Sequences.standard_between Sequences.get_standard_conversion Sequences.required_from
    Sequences.required_params Sequences.is_null Sequences.get_conversion Overload.variadic_of
    Overload.convert_arg Overload.convert_args Overload.rank_of Overload.all_valid
    Overload.check_conversions Overload.check_function Overload.check_declared
    Overload.check_viability Overload.vote Overload.cast Overload.first_rank Overload.first_sequence
    Overload.rest_of Overload.vote_loop Overload.verdict Overload.compare_functions
    Overload.compare_candidates Resolve.check_candidate
first_over_last = refl

abbrev no_preference : ℕ → ℕ → ℤ
no_preference t u = pos 0

resolve_ignores_checker_example :
    resolve [] (some no_preference) (short_type ∷ []) candidates
    ≡ resolve [] none (short_type ∷ []) candidates
resolve_ignores_checker_example =
    resolve_ignores_checker [] (some no_preference) (short_type ∷ []) candidates

resolve-winner_example :
    resolve [] (some no_preference) (short_type ∷ []) candidates ≡ answer (1, by_int)
resolve-winner_example =
    resolve-winner [] (some no_preference) (short_type ∷ []) candidates ((0, by_double) ∷ [])
      (1, by_int) ((2, by_template) ∷ []) (refl, (refl, (refl, (refl, tt)))) viable
      (int_over_double, tt) (int_over_template, tt)

-- A decayed array, an exact match through a user's conversion, and an ellipsis.
abbrev decayed : ImplicitConversionSequence
decayed = get_standard (record {
  first = lvalue_transformation;
  second = identity;
  third = identity;
  rank = ConversionRank.exact_match;
})

abbrev converted : ImplicitConversionSequence
converted = get_user_defined 7 Ranks.identity_sequence

compare_implicit_order_example :
    ((is_neg (compare_implicit decayed converted) ≡ true)
      ↔ (is_pos (compare_implicit converted decayed) ≡ true))
    × (is_pos (compare_implicit decayed converted) ≡ false
        → is_pos (compare_implicit converted get_ellipsis) ≡ false
        → is_pos (compare_implicit decayed get_ellipsis) ≡ false)
compare_implicit_order_example = compare_implicit_order decayed converted get_ellipsis

-- Two reference types that refer to `int`.
abbrev int_ref : ℕ → Ty
int_ref a = reference a true (builtin 1 int)

is_standard_between-standard_between_example :
    is_standard_between [] (int_ref 5) 0 (int_ref 6) 1
    ≡ same_type (int_ref 5) (int_ref 6)
      || not (is_bad_sequence (standard_between [] (int_ref 5) 0 (int_ref 6) 1))
        && not (slices [] (int_ref 5) (int_ref 6))
      || same_referenced (int_ref 5) (int_ref 6)
is_standard_between-standard_between_example =
    is_standard_between-standard_between [] (int_ref 5) 0 (int_ref 6) 1
