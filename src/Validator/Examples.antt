-- ===== src/Validator/Examples.antt =====
-- The validator on concrete texts.
use block_type.Prelude.{some, ◌++◌, ℕ, ◌≡◌, ◌↔◌, refl, true, false, List, [], ◌∷◌, length, arith}
use block_type.Validator.{
  is_continuation_byte, expected_byte_count, all_continuation, code_point, in_range, step,
  validate_loop, validate_scalar, find_loop, find_invalid_scalar,
}
use block_type.Validator.Scalar.{WellFormed, validate_scalar_iff}
use block_type.Validator.FindInvalid.{Longest, find_invalid_scalar-Longest}
use block_type.Validator.Sse2.{
  less_than_0x80, all_ascii, sse2_step, sse2_chunk, sse2_loop, validate_sse2, find_invalid_sse2,
}
use block_type.Validator.Sse2.Accepts.{validate_sse2-validate_scalar}
use block_type.Validator.Sse2.Finds.{find_invalid_sse2-valid}

-- A letter, the euro sign, and a letter.
abbrev mixed : List ℕ
mixed = 0x41 ∷ 0xE2 ∷ 0x82 ∷ 0xAC ∷ 0x42 ∷ []

-- A letter, and an overlong slash.
abbrev overlong : List ℕ
overlong = 0x41 ∷ 0xC0 ∷ 0xAF ∷ []

validate_texts : (validate_scalar mixed ≡ true) × (validate_scalar overlong ≡ false)
unfolding validate_scalar validate_loop step expected_byte_count is_continuation_byte
    all_continuation code_point in_range
validate_texts = (refl, refl)

find_overlong : find_invalid_scalar overlong ≡ 1
unfolding find_invalid_scalar find_loop step expected_byte_count is_continuation_byte
    all_continuation code_point in_range
find_overlong = refl

validate_scalar_iff_example : (validate_scalar mixed ≡ true) ↔ WellFormed mixed
validate_scalar_iff_example = validate_scalar_iff mixed (omega arith)

find_invalid_scalar-Longest_example : Longest overlong (find_invalid_scalar overlong)
find_invalid_scalar-Longest_example = find_invalid_scalar-Longest overlong (omega arith)

-- 17 bytes with three euro signs.
abbrev long : List ℕ
long = mixed ++ mixed ++ mixed ++ 0x41 ∷ 0x42 ∷ []

long_valid : validate_scalar long ≡ true
unfolding validate_scalar validate_loop step expected_byte_count is_continuation_byte
    all_continuation code_point in_range
long_valid = refl

-- The SSE2 variant accepts an overlong form that the scalar one rejects.
overlong_accepted :
    (validate_sse2 [] (overlong ++ long) ≡ true) × (validate_scalar (overlong ++ long) ≡ false)
unfolding validate_sse2 sse2_loop sse2_chunk sse2_step all_ascii less_than_0x80 validate_scalar
    validate_loop step expected_byte_count is_continuation_byte all_continuation code_point in_range
overlong_accepted = (refl, refl)

validate_sse2-validate_scalar_example : validate_sse2 (0 ∷ []) long ≡ true
validate_sse2-validate_scalar_example = validate_sse2-validate_scalar (0 ∷ []) long long_valid

find_invalid_sse2-valid_example : find_invalid_sse2 [] long ≡ some (length long)
find_invalid_sse2-valid_example = find_invalid_sse2-valid [] long long_valid
