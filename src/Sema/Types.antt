-- ===== src/Sema/Types.antt =====
-- The types of include/blocktype/AST/Type.h as the conversions see them, and the classes of
-- `CXXRecordDecl`. A type carries its address, which `==` on type pointers compares: every type is its
-- own canonical type, since nothing calls `setCanonicalType`. A pointee, a referenced type and an
-- element type are never null, and a record type has its declaration.
use block_type.Prelude.{
  ℕ, Bool, true, false, ◌&&◌, ◌||◌, Option, none, some, List, [], ◌∷◌, ◌==◌, if◌then◌else◌,
}
use block_type.Prelude.Maps.{nat_key, lookup}

pub data BuiltinKind : Type 0 where
  void : BuiltinKind
  bool char signed_char unsigned_char w_char char16 char32 char8 : BuiltinKind
  short int long long_long int128 : BuiltinKind
  unsigned_short unsigned_int unsigned_long unsigned_long_long unsigned_int128 : BuiltinKind
  float double long_double float128 : BuiltinKind
  null_ptr : BuiltinKind

pub data Ty : Type 0 where
  builtin : ℕ → BuiltinKind → Ty
  pointer : ℕ → Ty → Ty
  -- whether it is an lvalue reference, and the referenced type
  reference : ℕ → Bool → Ty → Ty
  array : ℕ → Ty → Ty
  -- whether it is variadic
  function : ℕ → Bool → Ty
  -- the declaration
  record_type : ℕ → ℕ → Ty
  enum_type : ℕ → Ty
  other : ℕ → Ty

unfoldable pub address : Ty → ℕ
address (builtin a k) = a
address (pointer a t) = a
address (reference a l t) = a
address (array a t) = a
address (function a v) = a
address (record_type a d) = a
address (enum_type a) = a
address (other a) = a

-- `Quals`: bit 0 is const, bit 1 volatile, bit 2 restrict, bits 3 and 4 the ref-qualifiers.
pub record QualType : Type 0 where
  pub ty : Option Ty
  pub quals : ℕ

unfoldable pub is_signed_integer : BuiltinKind → Bool
is_signed_integer char = true
is_signed_integer signed_char = true
is_signed_integer short = true
is_signed_integer int = true
is_signed_integer long = true
is_signed_integer long_long = true
is_signed_integer int128 = true
is_signed_integer _ = false

unfoldable pub is_unsigned_integer : BuiltinKind → Bool
is_unsigned_integer unsigned_char = true
is_unsigned_integer unsigned_short = true
is_unsigned_integer unsigned_int = true
is_unsigned_integer unsigned_long = true
is_unsigned_integer unsigned_long_long = true
is_unsigned_integer unsigned_int128 = true
is_unsigned_integer _ = false

unfoldable pub is_wide_or_bool : BuiltinKind → Bool
is_wide_or_bool bool = true
is_wide_or_bool char = true
is_wide_or_bool w_char = true
is_wide_or_bool char16 = true
is_wide_or_bool char32 = true
is_wide_or_bool char8 = true
is_wide_or_bool _ = false

-- `BuiltinType::isInteger`
unfoldable pub is_integer : BuiltinKind → Bool
is_integer k = is_signed_integer k || is_unsigned_integer k || is_wide_or_bool k

unfoldable pub is_floating_point : BuiltinKind → Bool
is_floating_point float = true
is_floating_point double = true
is_floating_point long_double = true
is_floating_point float128 = true
is_floating_point _ = false

unfoldable pub is_integer_type : Ty → Bool
is_integer_type (builtin a k) = is_integer k
is_integer_type (enum_type a) = true
is_integer_type _ = false

unfoldable pub is_floating_type : Ty → Bool
is_floating_type (builtin a k) = is_floating_point k
is_floating_type _ = false

unfoldable pub is_boolean_type : Ty → Bool
is_boolean_type (builtin a bool) = true
is_boolean_type _ = false

unfoldable pub is_void_type : Ty → Bool
is_void_type (builtin a void) = true
is_void_type _ = false

unfoldable pub is_null_ptr_type : Ty → Bool
is_null_ptr_type (builtin a null_ptr) = true
is_null_ptr_type _ = false

unfoldable pub is_pointer_type : Ty → Bool
is_pointer_type (pointer a t) = true
is_pointer_type _ = false

-- A parameter: its type, and whether it has a default argument.
pub record ParmVarDecl : Type 0 where
  pub type : QualType
  pub has_default : Bool

pub data Member : Type 0 where
  -- the declaration, whether it is explicit, whether it is deleted, the parameters
  constructor_decl : ℕ → Bool → Bool → List ParmVarDecl → Member
  -- the declaration, whether it is deleted, the type converted to
  conversion_decl : ℕ → Bool → QualType → Member
  other_member : Member

pub record CxxRecordDecl : Type 0 where
  pub bases : List QualType
  pub members : List Member

-- The class declarations by address, the latest first. A record that is not in the list is no
-- `CXXRecordDecl`. The bases of a class are complete when it is defined, so they stand behind it.
abbrev pub Classes : Type 0
Classes = List (ℕ × CxxRecordDecl)

unfoldable pub is_cxx_record : Classes → ℕ → Bool
is_cxx_record classes d = elim (lookup d classes) [ none ↦ false | some c ↦ true ]

-- The loop over the bases; `deeper` is `isDerivedFrom` of a base.
unfoldable pub any_base : Classes → (ℕ → Bool) → ℕ → List QualType → Bool
any_base classes deeper base [] = false
any_base classes deeper base (q ∷ qs) =
    let rest = any_base classes deeper base qs in
    elim q.ty [
      | some (record_type a d) ↦ is_cxx_record classes d && (d == base || deeper d) || rest
      | _ ↦ rest
    ]

unfoldable pub is_derived_from : Classes → ℕ → ℕ → Bool
is_derived_from [] d base = false
is_derived_from ((e, c) ∷ older) d base =
    let above = any_base older (λ b. is_derived_from older b base) base c.bases in
    let rest = is_derived_from older d base in if e == d then above else rest
