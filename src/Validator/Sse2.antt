-- ===== src/Validator/Sse2.antt =====
-- The SSE2 variants of src/Basic/UTF8Validator.cpp. `_mm_cmplt_epi8` compares signed bytes with
-- -128, so that no byte is less: the mask is 0, and the path for ASCII chunks is never taken, whatever
-- the 16 bytes are. The load reads 16 bytes, also where fewer are left of the text.
pub mod Accepts
pub mod Finds
use block_type.Prelude.{
  ℕ, zero, suc, ◌+◌, ◌-◌, ◌*◌, ◌/◌, Bool, true, false, not, ◌||◌, Option, none, some, List, [], ◌∷◌,
  bit_and, ltb, ◌==◌, if◌then◌else◌, length, drop, take, ◌++◌,
}
use block_type.Validator.{
  expected_byte_count, all_continuation, validate_scalar, find_invalid_scalar,
}

-- `static_cast<int8_t>` of a byte is below the one of 0x80, with 128 added to both.
unfoldable pub less_than_0x80 : ℕ → Bool
less_than_0x80 b = ltb (if ltb b 128 then b + 128 else b - 128) 0

-- The mask, as its highest bit: `true` if all 16 bytes are less.
unfoldable pub all_ascii : List ℕ → Bool
all_ascii [] = true
all_ascii (b ∷ p) = let rest = all_ascii p in if less_than_0x80 b then rest else false

-- One character of a chunk: the bytes to skip, or `none` where the function returns. There is no
-- test of the code point.
unfoldable pub sse2_step : ℕ → List ℕ → Option ℕ
sse2_step b p =
    let n = expected_byte_count b in
    if bit_and b 0x80 == 0
    then some 1
    else if n == 0 || n == 1
    then none
    else if ltb (length p) (n - 1)
    then none
    else if all_continuation (n - 1) p
    then some n
    else none

-- The loop over a chunk in `validateSSE2`, with the rounds to go; each character is one round. The
-- result is what is left of the text.
unfoldable pub sse2_chunk : ℕ → List ℕ → Option (List ℕ)
sse2_chunk zero p = some p
sse2_chunk (suc n) [] = some []
sse2_chunk (suc n) (b ∷ p) = elim (sse2_step b p) [
  | none ↦ none
  | some k ↦ sse2_chunk n (drop (k - 1) p)
]

-- The outer loop, where `rest` bytes lie behind `AlignedEnd` and the bytes `beyond` behind the text.
-- A round takes a byte at least, so the length of the text is fuel enough; without fuel the result
-- is a failure.
unfoldable pub sse2_loop : List ℕ → ℕ → ℕ → List ℕ → Option (List ℕ)
sse2_loop beyond zero rest p = if ltb rest (length p) then none else some p
sse2_loop beyond (suc fuel) rest p =
    if ltb rest (length p)
    then elim (all_ascii (take 16 (p ++ beyond))) [
      | true ↦ sse2_loop beyond fuel rest (drop 16 p)
      | false ↦ elim (sse2_chunk 16 p) [ none ↦ none | some p' ↦ sse2_loop beyond fuel rest p' ]
    ]
    else some p

unfoldable pub validate_sse2 : List ℕ → List ℕ → Bool
validate_sse2 beyond p =
    if ltb (length p) 16
    then validate_scalar p
    else elim (sse2_loop beyond (length p) (length p - length p / 16 * 16) p) [
      | none ↦ false
      | some p' ↦ validate_scalar p'
    ]

-- The loop over a chunk in `findInvalidSSE2`, where `i` counts bytes and `pos` is the distance from
-- the start: a stop with its position, or the position and the text that are left.
pub data Found : Type 0 where
  stop : ℕ → Found
  left : ℕ → List ℕ → Found

unfoldable pub find_chunk : ℕ → ℕ → ℕ → List ℕ → Found
find_chunk zero i pos p = left pos p
find_chunk (suc rounds) i pos [] = left pos []
find_chunk (suc rounds) i pos (b ∷ p) =
    if ltb i 16
    then elim (sse2_step b p) [
      | none ↦ stop pos
      | some k ↦ find_chunk rounds (i + k) (pos + k) (drop (k - 1) p)
    ]
    else left pos (b ∷ p)

-- The outer loop; the scalar search counts from the position where it goes on. A round takes a byte
-- at least, and so does each round of a chunk: 16 rounds are enough for a chunk, and the length of
-- the text for the loop. `none` is a loop that has not ended by then.
unfoldable pub find_sse2_loop : List ℕ → ℕ → ℕ → ℕ → List ℕ → Option ℕ
find_sse2_loop beyond zero rest pos p =
    if ltb rest (length p) then none else some (pos + find_invalid_scalar p)
find_sse2_loop beyond (suc fuel) rest pos p =
    if ltb rest (length p)
    then elim (all_ascii (take 16 (p ++ beyond))) [
      | true ↦ find_sse2_loop beyond fuel rest (pos + 16) (drop 16 p)
      | false ↦ elim (find_chunk 16 0 pos p) [
        | stop at ↦ some at
        | left pos' p' ↦ find_sse2_loop beyond fuel rest pos' p'
      ]
    ]
    else some (pos + find_invalid_scalar p)

unfoldable pub find_invalid_sse2 : List ℕ → List ℕ → Option ℕ
find_invalid_sse2 beyond p =
    if ltb (length p) 16
    then some (find_invalid_scalar p)
    else find_sse2_loop beyond (length p) (length p - length p / 16 * 16) 0 p
