-- ===== src/Validator/Masks.antt =====
-- The validator's code points, in plain arithmetic.
use block_type.Prelude.{ℕ, ◌+◌, ◌*◌, ◌%◌, ◌^◌, ◌<◌, ◌≡◌, List, ◌∷◌, arith, bit_or}
use block_type.Prelude.Bits.{shl32, bit_or-add, bit_and_07, bit_and_0f, bit_and_1f, bit_and_3f}
use block_type.Validator.{code_point}

or_6 : (x y : ℕ) → x < 2 ^ 26 → y < 64 → bit_or (shl32 x 6) y ≡ x * 64 + y
or_6 x y h k =
    let kept : x * 2 ^ 6 % 2 ^ 32 ≡ x * 2 ^ 6 = omega arith in rw kept (bit_or-add 6 x y k)

or_12 : (x y : ℕ) → x < 2 ^ 20 → y < 64 → bit_or (shl32 x 12) (shl32 y 6) ≡ shl32 (x * 64 + y) 6
or_12 x y h k =
    let kept : x * 2 ^ 12 % 2 ^ 32 ≡ x * 2 ^ 12 = omega arith in
    rw kept (omega (arith, bit_or-add 12 x (y * 2 ^ 6 % 2 ^ 32)))

or_18 : (x y : ℕ) → x < 2 ^ 14 → y < 64 → bit_or (shl32 x 18) (shl32 y 12) ≡ shl32 (x * 64 + y) 12
or_18 x y h k =
    let kept : x * 2 ^ 18 % 2 ^ 32 ≡ x * 2 ^ 18 = omega arith in
    rw kept (omega (arith, bit_or-add 18 x (y * 2 ^ 12 % 2 ^ 32)))

module _ (b c : ℕ) (p : List ℕ) where
  pub code_point_two : code_point 2 b (c ∷ p) ≡ b % 32 * 64 + c % 64
  unfolding code_point
  code_point_two = rw (bit_and_1f b, bit_and_3f c) (or_6 _ _ (omega arith) (omega arith))

  pub code_point_three : (d : ℕ) → code_point 3 b (c ∷ d ∷ p) ≡ (b % 16 * 64 + c % 64) * 64 + d % 64
  unfolding code_point
  code_point_three d =
      rw (bit_and_0f b, bit_and_3f c, bit_and_3f d)
        (rw (or_12 (b % 16) (c % 64) (omega arith) (omega arith))
          (or_6 _ _ (omega arith) (omega arith)))

  pub code_point_four :
      (d e : ℕ)
      → code_point 4 b (c ∷ d ∷ e ∷ p) ≡ ((b % 8 * 64 + c % 64) * 64 + d % 64) * 64 + e % 64
  unfolding code_point
  code_point_four d e =
      rw (bit_and_07 b, bit_and_3f c, bit_and_3f d, bit_and_3f e)
        (rw (or_18 (b % 8) (c % 64) (omega arith) (omega arith)) (
          rw (or_12 (b % 8 * 64 + c % 64) (d % 64) (omega arith) (omega arith))
            (or_6 _ _ (omega arith) (omega arith))))
