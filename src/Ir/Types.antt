-- ===== src/Ir/Types.antt =====
-- The types of include/blocktype/IR/IRType.h with src/IR/IRType.cpp. A pointer to a type is the type.
pub mod Equality
pub mod Align
pub mod Layout
use Prim.Native.String.{String}
use text.Mathlib.Text.{◌==◌ as str_eq}
use block_type.Prelude.{
  ℕ, ◌+◌, ◌-◌, ◌*◌, ◌%◌, ◌^◌, min, Bool, true, false, ◌&&◌, List, [], ◌∷◌, ◌==◌, ltb, if◌then◌else◌,
  bit_and, get_or,
}

-- One constructor for each class; the kind `Bool` has none.
mutual
  pub data IrType : Type 0 where
    void : IrType
    integer : ℕ → IrType
    float : ℕ → IrType
    pointer : IrType → ℕ → IrType
    array : ℕ → IrType → IrType
    struct : String → IrTypes → Bool → IrType
    function : IrType → IrTypes → Bool → IrType
    vector : ℕ → IrType → IrType
    opaque : String → IrType

  pub data IrTypes : Type 0 where
    nil : IrTypes
    cons : IrType → IrTypes → IrTypes

abbrev pub same_flag : Bool → Bool → Bool
same_flag true b = b
same_flag false true = false
same_flag false false = true

-- `equals`; the loops over two lists first compare their lengths.
unfoldable mutual
  pub equals : IrType → IrType → Bool
  equals void t = elim t [ void ↦ true | _ ↦ false ]
  equals (integer w) t = elim t [ integer w' ↦ w == w' | _ ↦ false ]
  equals (float w) t = elim t [ float w' ↦ w == w' | _ ↦ false ]
  equals (pointer p s) t = elim t [ pointer p' s' ↦ equals p p' && s == s' | _ ↦ false ]
  equals (array n e) t = elim t [ array n' e' ↦ n == n' && equals e e' | _ ↦ false ]
  equals (struct name fields packed) t = elim t [
    | struct name' fields' packed' ↦
        str_eq name name' && same_flag packed packed' && equals_all fields fields'
    | _ ↦ false
  ]
  equals (function r params var_arg) t = elim t [
    | function r' params' var_arg' ↦
        equals r r' && same_flag var_arg var_arg' && equals_all params params'
    | _ ↦ false
  ]
  equals (vector n e) t = elim t [ vector n' e' ↦ n == n' && equals e e' | _ ↦ false ]
  equals (opaque name) t = elim t [ opaque name' ↦ str_eq name name' | _ ↦ false ]

  pub equals_all : IrTypes → IrTypes → Bool
  equals_all nil ts = elim ts [ nil ↦ true | _ ↦ false ]
  equals_all (cons t ts) us = elim us [ nil ↦ false | cons u us' ↦ equals t u && equals_all ts us' ]

-- `uint64_t` arithmetic.
abbrev pub u64 : ℕ → ℕ
u64 x = x % 2 ^ 64

-- `(Value + Align - 1) & ~(Align - 1)`
unfoldable pub align_to : ℕ → ℕ → ℕ
align_to value align =
    bit_and (u64 (value + align + 2 ^ 64 - 1)) (2 ^ 64 - 1 - u64 (align + 2 ^ 64 - 1))

-- `getSizeInBits` and `getAlignInBits`, for a target with the given size of pointers in bits. The
-- two functions of an opaque type are never called; the assertions in them are no part of the model.
unfoldable mutual
  pub align_in_bits : ℕ → IrType → ℕ
  align_in_bits ptr void = 0
  align_in_bits ptr (integer w) = min w ptr
  align_in_bits ptr (float w) = w
  align_in_bits ptr (pointer p s) = ptr
  align_in_bits ptr (array n e) = align_in_bits ptr e
  align_in_bits ptr (struct name fields packed) = if packed then 8 else max_align ptr 8 fields
  align_in_bits ptr (function r params var_arg) = 0
  align_in_bits ptr (vector n e) = u64 (n * size_in_bits ptr e)
  align_in_bits ptr (opaque name) = 0

  -- The loop over the fields.
  pub max_align : ℕ → ℕ → IrTypes → ℕ
  max_align ptr so_far nil = so_far
  max_align ptr so_far (cons t ts) =
      let a = align_in_bits ptr t in max_align ptr (if ltb so_far a then a else so_far) ts

  pub size_in_bits : ℕ → IrType → ℕ
  size_in_bits ptr void = 0
  size_in_bits ptr (integer w) = w
  size_in_bits ptr (float w) = w
  size_in_bits ptr (pointer p s) = ptr
  size_in_bits ptr (array n e) = u64 (n * size_in_bits ptr e)
  size_in_bits ptr (struct name nil packed) = 0
  size_in_bits ptr (struct name (cons t ts) packed) =
      let end = end_of_fields ptr packed 0 (cons t ts) in
      if packed then end else align_to end (max_align ptr 8 (cons t ts))
  size_in_bits ptr (function r params var_arg) = 0
  size_in_bits ptr (vector n e) = u64 (n * size_in_bits ptr e)
  size_in_bits ptr (opaque name) = 0

  -- The loop over the fields, from an offset.
  pub end_of_fields : ℕ → Bool → ℕ → IrTypes → ℕ
  end_of_fields ptr packed offset nil = offset
  end_of_fields ptr packed offset (cons t ts) =
      let size = size_in_bits ptr t in
      let start = if packed then offset else align_to offset (align_in_bits ptr t) in
      end_of_fields ptr packed (u64 (start + size)) ts

-- The offsets that `getFieldOffset` computes when it is called first, and the one that it returns.
unfoldable pub field_offsets : ℕ → Bool → ℕ → IrTypes → List ℕ
field_offsets ptr packed offset nil = []
field_offsets ptr packed offset (cons t ts) =
    let size = size_in_bits ptr t in
    let start = if packed then offset else align_to offset (align_in_bits ptr t) in
    start ∷ field_offsets ptr packed (u64 (start + size)) ts

unfoldable pub field_offset : ℕ → Bool → IrTypes → ℕ → ℕ
field_offset ptr packed fields i = get_or (field_offsets ptr packed 0 fields) i 0
