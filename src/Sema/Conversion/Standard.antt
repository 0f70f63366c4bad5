-- ===== src/Sema/Conversion/Standard.antt =====
-- `isStandardConversion` of src/Sema/Conversion.cpp, beside `GetStandardConversion`.
use block_type.Prelude.{ℕ, ◌≡◌, refl, Bool, true, false, not, ◌&&◌, ◌||◌, arith, if◌then◌else◌}
use block_type.Sema.Types.{
  Ty, builtin, pointer, reference, record_type, enum_type, Classes, is_integer_type,
  is_floating_type, is_boolean_type, is_null_ptr_type, is_pointer_type, BuiltinKind, int,
  unsigned_int, is_signed_integer, is_unsigned_integer, is_integer,
}
use block_type.Sema.Conversion.{
  same_type, is_int_kind, promotes_kind, is_integral_promotion, is_floating_point_promotion,
  is_qualification_conversion,
}
use block_type.Sema.Conversion.Ranks.{is_bad_sequence}
use block_type.Sema.Conversion.Sequences.{
  derives, derives_type, is_derived_to_base_ref_conversion, is_derived_to_base_conversion,
  is_array_to_pointer_decay, is_function_to_pointer_decay, points_to_void, integer_and_floating,
  converts_to_bool, value_conversion, standard_between,
}

unfoldable pub is_reference_type : Ty → Bool
is_reference_type (reference a l t) = true
is_reference_type _ = false

unfoldable pub same_referenced : Ty → Ty → Bool
same_referenced (reference a l t) (reference b m u) = same_type t u
same_referenced _ _ = false

-- The pointer conversions of `isStandardConversion`.
unfoldable pub pointer_conversion : Classes → Ty → ℕ → Ty → ℕ → Bool
pointer_conversion classes t from_quals u to_quals =
    is_qualification_conversion t from_quals u to_quals
    || is_derived_to_base_conversion classes t u
    || points_to_void t u

unfoldable pub reference_conversion : Classes → Ty → Ty → Bool
reference_conversion classes t u =
    is_derived_to_base_ref_conversion classes t u || same_referenced t u

-- `isStandardConversion` between types that are not null.
unfoldable pub is_standard_between : Classes → Ty → ℕ → Ty → ℕ → Bool
is_standard_between classes t from_quals u to_quals =
    if same_type t u
    then true
    else if is_integer_type t && is_integer_type u
    then true
    else if is_floating_type t && is_floating_type u
    then true
    else if integer_and_floating t u
    then true
    else if is_boolean_type u && (converts_to_bool t || is_null_ptr_type t)
    then true
    else if is_null_ptr_type t && is_pointer_type u
    then true
    else if is_pointer_type t
        && is_pointer_type u
        && pointer_conversion classes t from_quals u to_quals
    then true
    else if is_reference_type t && is_reference_type u && reference_conversion classes t u
    then true
    else is_array_to_pointer_decay t u || is_function_to_pointer_decay t u

-- A class to one of its bases, by value.
unfoldable pub slices : Classes → Ty → Ty → Bool
slices classes (record_type a d) (record_type b e) = derives classes d e
slices classes _ _ = false

int_kind-integer : (k : BuiltinKind) → is_int_kind k ≡ true → is_integer k ≡ true
unfolding is_int_kind is_integer is_signed_integer is_unsigned_integer
int_kind-integer int h = refl
int_kind-integer unsigned_int h = refl
int_kind-integer _ h = absurd (ground arith)

integral_promotion-integers :
    (t u : Ty) → is_integral_promotion t u ≡ true → is_integer_type t && is_integer_type u ≡ true
unfolding is_integral_promotion promotes_kind is_integer_type
integral_promotion-integers (builtin a k) (builtin b l) h = ground arith
integral_promotion-integers (enum_type a) (builtin b l) h = int_kind-integer l h
integral_promotion-integers _ _ h = absurd (ground arith)

floating_point_promotion-floatings :
    (t u : Ty)
    → is_floating_point_promotion t u ≡ true
    → is_floating_type t && is_floating_type u ≡ true
unfolding is_floating_point_promotion is_floating_type
floating_point_promotion-floatings (builtin a k) (builtin b l) h = ground arith
floating_point_promotion-floatings _ _ h = absurd (ground arith)

-- The conversions of pointers, references and classes between types that differ.
adjusts :
    (classes : Classes) (t : Ty) (from_quals : ℕ) (u : Ty) (to_quals : ℕ)
    → same_type t u ≡ false
    → is_qualification_conversion t from_quals u to_quals
        || is_derived_to_base_conversion classes t u
        || is_derived_to_base_ref_conversion classes t u
        || points_to_void t u
      ≡ is_pointer_type t && is_pointer_type u && pointer_conversion classes t from_quals u to_quals
        || is_reference_type t
          && is_reference_type u
          && is_derived_to_base_ref_conversion classes t u
        || slices classes t u
unfolding is_qualification_conversion is_derived_to_base_conversion
    is_derived_to_base_ref_conversion points_to_void is_pointer_type is_reference_type
    pointer_conversion slices derives_type
adjusts classes (pointer a t) from_quals (pointer b u) to_quals h = ground arith
adjusts classes (reference a l t) from_quals (reference b m u) to_quals h = ground arith
adjusts classes (record_type a d) from_quals (record_type b e) to_quals h = ground arith
adjusts classes _ from_quals _ to_quals h = ground arith

-- Where `slices` holds, both are classes, and no other conversion applies.
slices-alone :
    (classes : Classes) (t u : Ty)
    → slices classes t u ≡ true
    → is_integer_type t
        || is_floating_type t
        || is_pointer_type t
        || is_null_ptr_type t
        || is_reference_type t
        || is_array_to_pointer_decay t u
        || is_function_to_pointer_decay t u
      ≡ false
unfolding slices is_integer_type is_floating_type is_pointer_type is_null_ptr_type is_reference_type
    is_array_to_pointer_decay is_function_to_pointer_decay
slices-alone classes (record_type a d) (record_type b e) h = refl
slices-alone classes _ _ h = absurd (ground arith)

same_referenced-references :
    (t u : Ty) → same_referenced t u ≡ true → is_reference_type t && is_reference_type u ≡ true
unfolding same_referenced is_reference_type
same_referenced-references (reference a l t) (reference b m u) h = refl
same_referenced-references _ _ h = absurd (ground arith)

points_to_void-pointers :
    (t u : Ty) → points_to_void t u ≡ true → is_pointer_type t && is_pointer_type u ≡ true
unfolding points_to_void is_pointer_type
points_to_void-pointers (pointer a t) (pointer b u) h = refl
points_to_void-pointers _ _ h = absurd (ground arith)

value_conversion-good :
    (t u : Ty)
    → not (is_bad_sequence (value_conversion t u))
      ≡ is_null_ptr_type t && (is_pointer_type u || is_boolean_type u)
        || is_integer_type t && is_integer_type u
        || is_floating_type t && is_floating_type u
        || integer_and_floating t u
        || is_boolean_type u && converts_to_bool t
        || points_to_void t u
unfolding value_conversion is_bad_sequence
value_conversion-good t u = ground arith

standard_between-good :
    (classes : Classes) (t : Ty) (from_quals : ℕ) (u : Ty) (to_quals : ℕ)
    → not (is_bad_sequence (standard_between classes t from_quals u to_quals))
      ≡ same_type t u
        || is_integral_promotion t u
        || is_floating_point_promotion t u
        || is_qualification_conversion t from_quals u to_quals
        || is_derived_to_base_conversion classes t u
        || is_derived_to_base_ref_conversion classes t u
        || is_array_to_pointer_decay t u
        || is_function_to_pointer_decay t u
        || not (is_bad_sequence (value_conversion t u))
unfolding standard_between is_bad_sequence
standard_between-good classes t from_quals u to_quals = ground arith

-- `isStandardConversion` answers as `GetStandardConversion` does where the latter finds a conversion,
-- with two differences: it refuses a class that is to become one of its bases by value, where the two
-- types are not the same, and it accepts two reference types that refer to one type.
pub is_standard_between-standard_between :
    (classes : Classes) (t : Ty) (from_quals : ℕ) (u : Ty) (to_quals : ℕ)
    → is_standard_between classes t from_quals u to_quals
      ≡ same_type t u
        || not (is_bad_sequence (standard_between classes t from_quals u to_quals))
          && not (slices classes t u)
        || same_referenced t u
unfolding is_standard_between reference_conversion converts_to_bool integer_and_floating
is_standard_between-standard_between classes t from_quals u to_quals = ground (
  arith,
  adjusts classes t from_quals u to_quals,
  slices-alone classes t u,
  same_referenced-references t u,
  integral_promotion-integers t u,
  floating_point_promotion-floatings t u,
  points_to_void-pointers t u,
  value_conversion-good t u,
  standard_between-good classes t from_quals u to_quals,
)
