-- ===== src/Sema/Conversion.antt =====
-- src/Sema/Conversion.cpp and include/blocktype/Sema/Conversion.h: implicit conversions. How
-- conversion sequences compare stands in `Ranks`.
pub mod Ranks
pub mod Order
pub mod Sequences
pub mod Standard
use block_type.Prelude.{
  ℕ, ◌-◌, Bool, true, false, not, ◌&&◌, ◌||◌, Option, none, some, List, [], ◌∷◌, bit_and, ◌==◌, ltb,
  if◌then◌else◌, length,
}
use block_type.Prelude.Maps.{nat_key, lookup}
use block_type.Sema.Types.{
  BuiltinKind, void, bool, char, signed_char, unsigned_char, w_char, char16, char32, char8, short,
  int, long, long_long, int128, unsigned_short, unsigned_int, unsigned_long, unsigned_long_long,
  unsigned_int128, float, double, long_double, float128, null_ptr, Ty, builtin, pointer, reference,
  array, function, record_type, enum_type, other, address, QualType, is_integer, is_floating_point,
  is_integer_type, is_floating_type, is_boolean_type, is_void_type, is_null_ptr_type,
  is_pointer_type, ParmVarDecl, Member, constructor_decl, conversion_decl, other_member,
  CxxRecordDecl, Classes, is_cxx_record, is_derived_from,
}
use block_type.Sema.Conversion.Ranks.{
  ConversionRank, StandardConversionKind, StandardConversionSequence, identity_sequence,
  ImplicitConversionSequence, get_standard, get_user_defined, get_bad, is_bad_sequence, is_bad,
}

-- `getIntegerRank`; `none` is -1.
unfoldable pub integer_rank : BuiltinKind → Option ℕ
integer_rank bool = some 0
integer_rank char = some 1
integer_rank signed_char = some 1
integer_rank unsigned_char = some 1
integer_rank char8 = some 1
integer_rank char16 = some 1
integer_rank w_char = some 2
integer_rank char32 = some 2
integer_rank short = some 3
integer_rank unsigned_short = some 3
integer_rank int = some 4
integer_rank unsigned_int = some 4
integer_rank long = some 5
integer_rank unsigned_long = some 5
integer_rank long_long = some 6
integer_rank unsigned_long_long = some 6
integer_rank int128 = some 7
integer_rank unsigned_int128 = some 7
integer_rank _ = none

unfoldable pub floating_rank : BuiltinKind → Option ℕ
floating_rank float = some 0
floating_rank double = some 1
floating_rank long_double = some 2
floating_rank float128 = some 3
floating_rank _ = none

-- `isSameUnqualifiedType` on types that are not null.
unfoldable pub same_type : Ty → Ty → Bool
same_type t u = address t == address u

unfoldable pub is_int_kind : BuiltinKind → Bool
is_int_kind int = true
is_int_kind unsigned_int = true
is_int_kind _ = false

-- The kinds in the order of their declaration; `getKind() == getKind()` compares these.
unfoldable pub kind_index : BuiltinKind → ℕ
kind_index void = 0
kind_index bool = 1
kind_index char = 2
kind_index signed_char = 3
kind_index unsigned_char = 4
kind_index w_char = 5
kind_index char16 = 6
kind_index char32 = 7
kind_index char8 = 8
kind_index short = 9
kind_index int = 10
kind_index long = 11
kind_index long_long = 12
kind_index int128 = 13
kind_index unsigned_short = 14
kind_index unsigned_int = 15
kind_index unsigned_long = 16
kind_index unsigned_long_long = 17
kind_index unsigned_int128 = 18
kind_index float = 19
kind_index double = 20
kind_index long_double = 21
kind_index float128 = 22
kind_index null_ptr = 23

unfoldable pub is_bool_kind : BuiltinKind → Bool
is_bool_kind bool = true
is_bool_kind _ = false

unfoldable pub promotes_rank : Option ℕ → Option ℕ → Bool
promotes_rank (some r) (some s) = ltb r 4 && s == 4
promotes_rank _ _ = false

-- `isIntegralPromotion` between two builtin types.
unfoldable pub promotes_kind : BuiltinKind → BuiltinKind → Bool
promotes_kind k l =
    if not (is_integer k) || not (is_integer l)
    then false
    else if kind_index k == kind_index l
    then false
    else promotes_rank (integer_rank k) (integer_rank l) || is_bool_kind k && is_int_kind l

unfoldable pub is_integral_promotion : Ty → Ty → Bool
is_integral_promotion (enum_type a) (builtin b l) = is_int_kind l
is_integral_promotion (builtin a k) (builtin b l) = promotes_kind k l
is_integral_promotion _ _ = false

unfoldable pub rank_below : Option ℕ → Option ℕ → Bool
rank_below (some r) (some s) = ltb r s
rank_below _ _ = false

unfoldable pub is_floating_point_promotion : Ty → Ty → Bool
is_floating_point_promotion (builtin a k) (builtin b l) =
    if not (is_floating_point k) || not (is_floating_point l)
    then false
    else rank_below (floating_rank k) (floating_rank l)
is_floating_point_promotion _ _ = false

-- `(toCV & fromCV) == fromCV`, for const and volatile.
unfoldable pub keeps_cv : ℕ → ℕ → Bool
keeps_cv from_quals to_quals =
    let from_cv = bit_and from_quals 3 in bit_and (bit_and to_quals 3) from_cv == from_cv

-- `isQualificationConversionRecursive`. The types below the first level come without qualifiers.
unfoldable pub qualification_recursive : Ty → ℕ → Ty → ℕ → Bool
qualification_recursive (pointer a t) from_quals (pointer b u) to_quals =
    keeps_cv from_quals to_quals && qualification_recursive t 0 u 0
qualification_recursive (pointer a t) from_quals u to_quals = false
qualification_recursive t from_quals (pointer b u) to_quals = false
qualification_recursive t from_quals u to_quals = same_type t u && keeps_cv from_quals to_quals

-- `((toCV & ~fromCV) & cvrMask) != 0`, for const, volatile and restrict.
unfoldable pub adds_cvr : ℕ → ℕ → Bool
adds_cvr from_quals to_quals = not (bit_and (bit_and to_quals 7) (7 - bit_and from_quals 7) == 0)

unfoldable pub is_qualification_conversion : Ty → ℕ → Ty → ℕ → Bool
is_qualification_conversion (pointer a t) from_quals (pointer b u) to_quals =
    qualification_recursive t from_quals u to_quals
is_qualification_conversion t from_quals u to_quals =
    if same_type t u then adds_cvr from_quals to_quals else false
