-- ===== src/Sema/Conversion/Sequences.antt =====
-- `GetStandardConversion`, `GetConversion` and the user-defined conversions of
-- src/Sema/Conversion.cpp.
use block_type.Prelude.{
  ℕ, suc, Bool, true, false, not, ◌&&◌, ◌||◌, Option, none, some, List, [], ◌∷◌, ◌==◌,
  if◌then◌else◌,
}
use block_type.Prelude.Maps.{nat_key, lookup}
use block_type.Sema.Types.{
  Ty, pointer, reference, array, function, record_type, QualType, is_integer_type, is_floating_type,
  is_boolean_type, is_void_type, is_null_ptr_type, is_pointer_type, ParmVarDecl, Member,
  constructor_decl, conversion_decl, other_member, Classes, is_cxx_record, is_derived_from,
}
use block_type.Sema.Conversion.Ranks.{
  ConversionRank, StandardConversionKind, StandardConversionSequence, identity_sequence,
  ImplicitConversionSequence, get_standard, get_user_defined, get_bad, is_bad_sequence, is_bad,
}
use block_type.Sema.Conversion.{
  same_type, is_integral_promotion, is_floating_point_promotion, is_qualification_conversion,
}

-- Both declarations are of C++ classes, and the first derives from the second.
unfoldable pub derives : Classes → ℕ → ℕ → Bool
derives classes d e =
    if is_cxx_record classes d && is_cxx_record classes e
    then is_derived_from classes d e
    else false

unfoldable pub derives_type : Classes → Ty → Ty → Bool
derives_type classes (record_type a d) (record_type b e) = derives classes d e
derives_type classes _ _ = false

unfoldable pub is_derived_to_base_ref_conversion : Classes → Ty → Ty → Bool
is_derived_to_base_ref_conversion classes (reference a l t) (reference b m u) =
    derives_type classes t u
is_derived_to_base_ref_conversion classes _ _ = false

-- Pointers, references, or the classes themselves.
unfoldable pub is_derived_to_base_conversion : Classes → Ty → Ty → Bool
is_derived_to_base_conversion classes (pointer a t) (pointer b u) = derives_type classes t u
is_derived_to_base_conversion classes (reference a l t) (reference b m u) = derives_type classes t u
is_derived_to_base_conversion classes t u = derives_type classes t u

unfoldable pub is_array_to_pointer_decay : Ty → Ty → Bool
is_array_to_pointer_decay (array a t) (pointer b u) = same_type t u
is_array_to_pointer_decay _ _ = false

-- Steps 7 of `GetStandardConversion` and the last of `isStandardConversion` compare the pointers.
unfoldable pub is_function_to_pointer_decay : Ty → Ty → Bool
is_function_to_pointer_decay (function a v) (pointer b u) = same_type u (function a v)
is_function_to_pointer_decay _ _ = false

unfoldable pub points_to_void : Ty → Ty → Bool
points_to_void (pointer a t) (pointer b u) = is_void_type u
points_to_void _ _ = false

unfoldable pub integer_and_floating : Ty → Ty → Bool
integer_and_floating t u =
    is_integer_type t && is_floating_type u || is_floating_type t && is_integer_type u

unfoldable pub converts_to_bool : Ty → Bool
converts_to_bool t = is_integer_type t || is_floating_type t || is_pointer_type t

abbrev third_step : StandardConversionKind → ConversionRank → StandardConversionSequence
third_step k r = record identity_sequence { third = k; rank = r }

abbrev first_step : StandardConversionKind → StandardConversionSequence
first_step k = record identity_sequence { first = k }

abbrev converted : StandardConversionSequence
converted = third_step StandardConversionKind.conversion ConversionRank.conversion

abbrev promoted : StandardConversionSequence
promoted = third_step StandardConversionKind.promotion ConversionRank.promotion

abbrev no_conversion : StandardConversionSequence
no_conversion = record identity_sequence { rank = ConversionRank.bad_conversion }

-- Steps 8 to 13 of `GetStandardConversion`.
unfoldable pub value_conversion : Ty → Ty → StandardConversionSequence
value_conversion t u =
    if is_null_ptr_type t && (is_pointer_type u || is_boolean_type u)
    then converted
    else if is_integer_type t && is_integer_type u
    then converted
    else if is_floating_type t && is_floating_type u
    then converted
    else if integer_and_floating t u
    then converted
    else if is_boolean_type u && converts_to_bool t
    then converted
    else if points_to_void t u
    then converted
    else no_conversion

-- `GetStandardConversion` between types that are not null.
unfoldable pub standard_between : Classes → Ty → ℕ → Ty → ℕ → StandardConversionSequence
standard_between classes t from_quals u to_quals =
    if same_type t u
    then if from_quals == to_quals
      then identity_sequence
      else first_step StandardConversionKind.qualification_adjustment
    else if is_integral_promotion t u
    then promoted
    else if is_floating_point_promotion t u
    then promoted
    else if is_qualification_conversion t from_quals u to_quals
    then third_step StandardConversionKind.qualification_adjustment ConversionRank.exact_match
    else if is_derived_to_base_conversion classes t u
    then converted
    else if is_derived_to_base_ref_conversion classes t u
    then converted
    else if is_array_to_pointer_decay t u
    then first_step StandardConversionKind.lvalue_transformation
    else if is_function_to_pointer_decay t u
    then first_step StandardConversionKind.lvalue_transformation
    else value_conversion t u

unfoldable pub get_standard_conversion : Classes → QualType → QualType → StandardConversionSequence
get_standard_conversion classes from to = elim from.ty [
  | none ↦ no_conversion
  | some t ↦ elim to.ty [
    | none ↦ no_conversion
    | some u ↦ standard_between classes t from.quals u to.quals
  ]
]

-- The number of the last parameter that has no default argument.
unfoldable pub required_from : ℕ → ℕ → List ParmVarDecl → ℕ
required_from i required [] = required
required_from i required (p ∷ ps) =
    required_from (suc i) (if p.has_default then required else suc i) ps

unfoldable pub required_params : List ParmVarDecl → ℕ
required_params ps = required_from 0 0 ps

-- A parameter that is a reference to the class itself: a copy or move constructor.
unfoldable pub refers_to_class : ℕ → Option Ty → Bool
refers_to_class class (some (reference a l (record_type b d))) = d == class
refers_to_class class _ = false

-- Whether a member is a constructor that converts `from`, and what it then gives.
unfoldable pub by_constructor : Classes → QualType → ℕ → Member → Option ImplicitConversionSequence
by_constructor classes from class (constructor_decl f true deleted ps) = none
by_constructor classes from class (constructor_decl f false true ps) = none
by_constructor classes from class (constructor_decl f false false []) = none
by_constructor classes from class (constructor_decl f false false (p ∷ ps)) =
    if not (required_params (p ∷ ps) == 1)
    then none
    else if refers_to_class class p.type.ty
    then none
    else if is_bad_sequence (get_standard_conversion classes from p.type)
    then none
    else some (get_user_defined f identity_sequence)
by_constructor classes from class (conversion_decl f deleted q) = none
by_constructor classes from class other_member = none

-- `TryConvertingConstructor`: the first member that converts.
unfoldable pub try_converting_constructor :
    Classes → QualType → ℕ → List Member → ImplicitConversionSequence
try_converting_constructor classes from class [] = get_bad
try_converting_constructor classes from class (m ∷ ms) =
    elim (by_constructor classes from class m) [
      | some s ↦ s
      | none ↦ try_converting_constructor classes from class ms
    ]

unfoldable pub by_operator : Classes → QualType → Member → Option ImplicitConversionSequence
by_operator classes to (conversion_decl f true q) = none
by_operator classes to (conversion_decl f false q) =
    let s = get_standard_conversion classes q to in
    if is_bad_sequence s then none else some (get_user_defined f s)
by_operator classes to (constructor_decl f explicit deleted ps) = none
by_operator classes to other_member = none

-- `TryConversionOperator`
unfoldable pub try_conversion_operator :
    Classes → QualType → List Member → ImplicitConversionSequence
try_conversion_operator classes to [] = get_bad
try_conversion_operator classes to (m ∷ ms) = elim (by_operator classes to m) [
  | some s ↦ s
  | none ↦ try_conversion_operator classes to ms
]

-- The members of a type's class, where it is a C++ class.
unfoldable pub class_of : Classes → Option Ty → Option (ℕ × List Member)
class_of classes (some (record_type a d)) = elim (lookup d classes) [
  | none ↦ none
  | some c ↦ some (d, c.members)
]
class_of classes _ = none

unfoldable pub constructed : Classes → QualType → QualType → ImplicitConversionSequence
constructed classes from to = elim (class_of classes to.ty) [
  | none ↦ get_bad
  | some (d, members) ↦ try_converting_constructor classes from d members
]

unfoldable pub operated : Classes → QualType → QualType → ImplicitConversionSequence
operated classes from to = elim (class_of classes from.ty) [
  | none ↦ get_bad
  | some (d, members) ↦ try_conversion_operator classes to members
]

unfoldable pub is_null : QualType → Bool
is_null q = elim q.ty [ none ↦ true | some t ↦ false ]

-- `GetConversion`: a standard conversion, else a converting constructor, else a conversion operator.
unfoldable pub get_conversion : Classes → QualType → QualType → ImplicitConversionSequence
get_conversion classes from to =
    let s = get_standard_conversion classes from to in
    if not (is_bad_sequence s)
    then get_standard s
    else if is_null from || is_null to
    then get_bad
    else if not (is_bad (constructed classes from to))
    then constructed classes from to
    else operated classes from to
