-- ===== src/Validator/Sse2/Finds.antt =====
-- Where the scalar validator accepts a text, the SSE2 search runs to its end.
use block_type.Prelude.{
  ℕ, zero, suc, ◌+◌, ◌-◌, ◌*◌, ◌/◌, ◌≤◌, ◌≡◌, refl, inl, inr, true, some, List, [], ◌∷◌, ◌++◌,
  length, drop, ap, length-drop, arith, ltb, Bool-cases,
}
use block_type.Validator.{step, validate_scalar, find_invalid_scalar, expected_byte_count}
use block_type.Validator.FindInvalid.{find_invalid_scalar-validate}
use block_type.Validator.Sse2.{Found, left, find_chunk, find_sse2_loop, find_invalid_sse2}
use block_type.Validator.Sse2.Accepts.{sse2_step-step, validate_scalar-step, not_ascii}

step_size : (a n : ℕ) (p : List ℕ) → step a p ≡ some n → (1 ≤ n) × (n ≤ suc (length p))
unfolding step expected_byte_count
step_size a n p e = ground arith

-- Where a chunk ends in a valid text: at a valid rest, of the length that the position says.
abbrev Ends : ℕ → List ℕ → ℕ → Found → Type 0
Ends pos ps most found =
    (pos' : ℕ) × (p' : List ℕ) × (found ≡ left pos' p')
    × (validate_scalar p' ≡ true)
    × (pos' + length p' ≡ pos + length ps)
    × (length p' ≤ most)

find_chunk-valid :
    (rounds i pos : ℕ) (ps : List ℕ)
    → validate_scalar ps ≡ true
    → Ends pos ps (length ps) (find_chunk rounds i pos ps)
unfolding find_chunk
find_chunk-valid zero i pos ps h = (pos, ps, refl, h, refl, omega arith)
find_chunk-valid (suc rounds) i pos [] h = (pos, [], refl, h, refl, omega arith)
find_chunk-valid (suc rounds) i pos (a ∷ p) h = elim (Bool-cases (ltb i 16)) [
  | inl more ↦
      let (n, e, valid) = validate_scalar-step a p h in
      let (pos', p', e', valid', sum, shorter) =
        find_chunk-valid rounds (i + n) (pos + n) (drop (n - 1) p) valid in
      let size = step_size a n p e in
      let cut = length-drop (n - 1) p in
      (pos', p', rw (find_chunk, more, sse2_step-step a n p e) e', valid', omega arith, omega arith)
  | inr full ↦ (pos, a ∷ p, rw (find_chunk, full) refl, h, refl, omega arith)
]

find_chunk-shrinks :
    (rounds pos a : ℕ) (p : List ℕ)
    → validate_scalar (a ∷ p) ≡ true
    → Ends pos (a ∷ p) (length p) (find_chunk (suc rounds) 0 pos (a ∷ p))
unfolding find_chunk
find_chunk-shrinks rounds pos a p h =
    let (n, e, valid) = validate_scalar-step a p h in
    let (pos', p', e', valid', sum, shorter) =
      find_chunk-valid rounds (0 + n) (pos + n) (drop (n - 1) p) valid in
    let size = step_size a n p e in
    let cut = length-drop (n - 1) p in
    (pos', p', rw (find_chunk, sse2_step-step a n p e) e', valid', omega arith, omega arith)

find_sse2_loop-next :
    (beyond : List ℕ) (fuel rest pos pos' a : ℕ) (p p' : List ℕ)
    → ltb rest (suc (length p)) ≡ true
    → find_chunk 16 0 pos (a ∷ p) ≡ left pos' p'
    → find_sse2_loop beyond (suc fuel) rest pos (a ∷ p) ≡ find_sse2_loop beyond fuel rest pos' p'
unfolding find_sse2_loop
find_sse2_loop-next beyond fuel rest pos pos' a p p' more e =
    rw (find_sse2_loop, more, not_ascii a 15 (p ++ beyond), e) refl

find_invalid_scalar-end :
    (pos : ℕ) (ps : List ℕ)
    → validate_scalar ps ≡ true
    → some (pos + find_invalid_scalar ps) ≡ some (pos + length ps)
find_invalid_scalar-end pos ps h =
    ap (λ (n : ℕ). some (pos + n)) ((find_invalid_scalar-validate ps).1.1 h)

find_sse2_loop-valid :
    (beyond : List ℕ) (fuel rest pos : ℕ) (ps : List ℕ)
    → length ps ≤ fuel
    → validate_scalar ps ≡ true
    → find_sse2_loop beyond fuel rest pos ps ≡ some (pos + length ps)
unfolding find_sse2_loop
find_sse2_loop-valid beyond zero rest pos [] h valid =
    ground (arith, find_invalid_scalar-end pos [] valid)
find_sse2_loop-valid beyond (suc fuel) rest pos [] h valid =
    ground (arith, find_invalid_scalar-end pos [] valid)
find_sse2_loop-valid beyond zero rest pos (a ∷ p) h valid = absurd (omega arith)
find_sse2_loop-valid beyond (suc fuel) rest pos (a ∷ p) h valid =
    elim (Bool-cases (ltb rest (suc (length p)))) [
      | inl more ↦
          let (pos', p', e, valid', sum, shorter) = find_chunk-shrinks 15 pos a p valid in
          rw (find_sse2_loop-next beyond fuel rest pos pos' a p p' more e, ← sum)
            (find_sse2_loop-valid beyond fuel rest pos' p' (omega arith) valid')
      | inr end ↦ rw (find_sse2_loop, end) (find_invalid_scalar-end pos (a ∷ p) valid)
    ]

-- In a text that the scalar validator accepts, the SSE2 search ends and finds nothing: it returns the
-- end of the text, whatever bytes lie behind.
pub find_invalid_sse2-valid :
    (beyond ps : List ℕ)
    → validate_scalar ps ≡ true
    → find_invalid_sse2 beyond ps ≡ some (length ps)
unfolding find_invalid_sse2
find_invalid_sse2-valid beyond ps valid = elim (Bool-cases (ltb (length ps) 16)) [
  | inl short ↦ rw short (ap (λ (n : ℕ). some n) ((find_invalid_scalar-validate ps).1.1 valid))
  | inr long ↦
      let whole =
        find_sse2_loop-valid beyond (length ps) (length ps - length ps / 16 * 16) 0 ps (omega arith)
          valid in
      let zero_less : 0 + length ps ≡ length ps = omega arith in rw long (rw zero_less at whole)
]
