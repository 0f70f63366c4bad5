-- ===== src/Ir/Examples.antt =====
-- A struct of three fields on a target with pointers of 64 bits, and one with an 80-bit float.
use block_type.Prelude.{◌+◌, ◌<◌, ◌^◌, ◌*◌, ◌%◌, ◌≡◌, ◌↔◌, refl, true, false, [], ◌∷◌, arith}
use block_type.Ir.Types.{
  integer, float, pointer, struct, IrTypes, nil, cons, equals, align_to, align_in_bits,
  size_in_bits, field_offsets,
}
use block_type.Ir.Types.Equality.{equals_iff}
use block_type.Ir.Types.Layout.{IsSound, room, LaidOut, struct-LaidOut}

abbrev fields : IrTypes
fields = cons (integer 8) (cons (integer 32) (cons (pointer (integer 8) 0) nil))

offsets : field_offsets 64 false 0 fields ≡ 0 ∷ 32 ∷ 64 ∷ []
unfolding field_offsets align_to align_in_bits size_in_bits
offsets = refl

size_of_struct : size_in_bits 64 (struct "s" fields false) ≡ 128
unfolding size_in_bits align_to align_in_bits
size_of_struct = refl

-- The alignment of an 80-bit float is no power of two, and its field starts at no multiple of it.
long_double : field_offsets 64 false 0 (cons (integer 8) (cons (float 80) nil)) ≡ 0 ∷ 16 ∷ []
unfolding field_offsets align_to align_in_bits size_in_bits
long_double = refl

equals_iff_example :
    (equals (pointer (integer 8) 0) (pointer (integer 8) 1) ≡ true)
    ↔ (pointer (integer 8) 0 ≡ pointer (integer 8) 1)
equals_iff_example = equals_iff (pointer (integer 8) 0) (pointer (integer 8) 1)

fields-IsSound : IsSound 64 fields
unfolding IsSound align_in_bits
fields-IsSound = ((3, omega arith, refl), ((5, omega arith, refl), ((6, omega arith, refl), tt)))

fields_fit : 8 + 2 * room 64 fields < 2 ^ 64
unfolding room align_in_bits size_in_bits
fields_fit = omega arith

struct-LaidOut_example :
    LaidOut 64 0 fields
      (field_offsets 64 false 0 fields)
      (size_in_bits 64 (struct "s" fields false))
    × (size_in_bits 64 (struct "s" fields false) % align_in_bits 64 (struct "s" fields false) ≡ 0)
struct-LaidOut_example = struct-LaidOut 64 "s" fields fields-IsSound fields_fit
