-- ===== src/Validator.antt =====
-- src/Basic/UTF8Validator.cpp: the scalar validator. A text is a list of bytes; the index `i` and
-- the pointer `Ptr` are the list that is left, and a returned pointer is its distance from `Start`.
mod Masks
pub mod Step
pub mod Scalar
pub mod FindInvalid
pub mod Sse2
mod Examples
use block_type.Prelude.{
  ℕ, zero, suc, ◌+◌, ◌-◌, Bool, true, false, ◌&&◌, ◌||◌, not, Option, none, some, List, [], ◌∷◌,
  bit_and, bit_or, ltb, leb, ◌==◌, if◌then◌else◌, length, drop, get_or,
}
use block_type.Prelude.Bits.{shl32}

pub is_continuation_byte : ℕ → Bool
is_continuation_byte b = bit_and b 0xC0 == 0x80

pub is_lead_byte : ℕ → Bool
is_lead_byte b = not (bit_and b 0xC0 == 0x80)

pub expected_byte_count : ℕ → ℕ
expected_byte_count b =
    if bit_and b 0x80 == 0
    then 1
    else if bit_and b 0xE0 == 0xC0
    then 2
    else if bit_and b 0xF0 == 0xE0
    then 3
    else if bit_and b 0xF8 == 0xF0
    then 4
    else 0

-- The loop over the continuation bytes, with the rounds to go. The list holds them all.
pub all_continuation : ℕ → List ℕ → Bool
all_continuation zero p = true
all_continuation (suc n) [] = false
all_continuation (suc n) (b ∷ p) = is_continuation_byte b && all_continuation n p

-- The code point of a sequence with lead byte `b` and the bytes `p` behind it.
pub code_point : ℕ → ℕ → List ℕ → ℕ
code_point n b p =
    let field : ℕ → ℕ = λ j. bit_and (get_or p j 0) 0x3F in
    if n == 2
    then bit_or (shl32 (bit_and b 0x1F) 6) (field 0)
    else if n == 3
    then bit_or (bit_or (shl32 (bit_and b 0x0F) 12) (shl32 (field 0) 6)) (field 1)
    else if n == 4
    then bit_or
        (bit_or (bit_or (shl32 (bit_and b 0x07) 18) (shl32 (field 0) 12)) (shl32 (field 1) 6))
        (field 2)
    else 0

-- The tests of the `switch`: `false` is a return.
pub in_range : ℕ → ℕ → Bool
in_range n cp =
    if n == 2
    then not (ltb cp 0x80)
    else if n == 3
    then not (ltb cp 0x800) && not (leb 0xD800 cp && leb cp 0xDFFF)
    else if n == 4
    then not (ltb cp 0x10000) && not (ltb 0x10FFFF cp)
    else true

-- One round of the loop at `b ∷ p`: the bytes to skip, or `none` where the function returns.
pub step : ℕ → List ℕ → Option ℕ
step b p =
    let n = expected_byte_count b in
    if bit_and b 0x80 == 0
    then some 1
    else if n == 0 || n == 1
    then none
    else if ltb (length p) (n - 1)
    then none
    else if all_continuation (n - 1) p
    then (if in_range n (code_point n b p) then some n else none)
    else none

-- Both loops skip at least a byte in each round: the number of bytes is fuel enough.
pub validate_loop : ℕ → List ℕ → Bool
validate_loop fuel [] = true
validate_loop zero (b ∷ p) = false
validate_loop (suc fuel) (b ∷ p) = elim (step b p) [
  | none ↦ false
  | some n ↦ validate_loop fuel (drop (n - 1) p)
]

pub validate_scalar : List ℕ → Bool
validate_scalar ps = validate_loop (length ps) ps

-- `i` bytes have been skipped; at the end the result is `End`.
pub find_loop : ℕ → ℕ → List ℕ → ℕ
find_loop fuel i [] = i
find_loop zero i (b ∷ p) = i
find_loop (suc fuel) i (b ∷ p) = elim (step b p) [
  | none ↦ i
  | some n ↦ find_loop fuel (i + n) (drop (n - 1) p)
]

pub find_invalid_scalar : List ℕ → ℕ
find_invalid_scalar ps = find_loop (length ps) 0 ps
