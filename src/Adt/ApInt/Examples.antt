-- ===== src/Adt/ApInt/Examples.antt =====
-- Numbers of 128 bits, the theorems of `APInt` at them, and two results that the widths make surprising.
use block_type.Prelude.{◌+◌, ◌-◌, ◌%◌, ◌^◌, ◌<◌, ◌≡◌, ◌↔◌, refl, true, [], ◌∷◌, arith}
use block_type.Prelude.Int.{◌<ℤ◌}
use block_type.Adt.ApInt.{
  ApInt, num_words_for, ugt, sgt, zext_or_trunc, get_signed_max_value, of_word, of_words,
}
use block_type.Adt.ApInt.Ops.{add, sub}
use block_type.Adt.ApInt.Value.{value, IsNormal}
use block_type.Adt.ApInt.Arith.{add-sub-value}
use block_type.Adt.ApInt.Order.{signed, ugt-sgt_iff}
use block_type.Adt.ApInt.Widths.{IsResized, zext_or_trunc-IsResized}

-- 6 * 2 ^ 64 - 1, and a negative number.
abbrev near : ApInt
near = record { bit_width = 128; words = (2 ^ 64 - 1) ∷ 5 ∷ [] }

abbrev minus : ApInt
minus = record { bit_width = 128; words = 1 ∷ (2 ^ 63) ∷ [] }

near-IsNormal : IsNormal near
unfolding value num_words_for
near-IsNormal = record {
  wide = omega arith;
  narrow = omega arith;
  sized = refl;
  bounded = (omega arith, (omega arith, tt));
  in_range = omega arith;
}

minus-IsNormal : IsNormal minus
unfolding value num_words_for
minus-IsNormal = record {
  wide = omega arith;
  narrow = omega arith;
  sized = refl;
  bounded = (omega arith, (omega arith, tt));
  in_range = omega arith;
}

add-sub-value_example :
    IsNormal (add near minus)
    × ((add near minus).bit_width ≡ 128)
    × (value (add near minus).words ≡ (value near.words + value minus.words) % 2 ^ 128)
    × IsNormal (sub near minus)
    × ((sub near minus).bit_width ≡ 128)
    × (value (sub near minus).words ≡ (value near.words + 2 ^ 128 - value minus.words) % 2 ^ 128)
add-sub-value_example = add-sub-value near minus near-IsNormal minus-IsNormal refl

ugt-sgt_iff_example :
    ((ugt near minus ≡ true) ↔ (value minus.words < value near.words))
    × ((sgt near minus ≡ true) ↔ (signed minus <ℤ signed near))
ugt-sgt_iff_example = ugt-sgt_iff near minus near-IsNormal minus-IsNormal refl

zext_or_trunc-IsResized_example : IsResized 70 near (zext_or_trunc 70 near)
zext_or_trunc-IsResized_example =
    zext_or_trunc-IsResized 70 near near-IsNormal (omega arith) (omega arith)

-- The maximum of 128 bits has only its low 64 bits set.
get_signed_max_value_128 : (get_signed_max_value 128).words ≡ (2 ^ 64 - 1) ∷ 0 ∷ []
unfolding get_signed_max_value of_word block_type.Adt.ApInt.clear_bit block_type.Adt.ApInt.set_word
    block_type.Adt.ApInt.word block_type.Adt.ApInt.num_words block_type.Adt.ApInt.copy_words
    num_words_for block_type.Adt.ApInt.clear_unused_bits block_type.Adt.ApInt.mask_last
get_signed_max_value_128 = refl
