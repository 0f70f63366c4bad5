-- ===== src/Validator/Sse2/Accepts.antt =====
-- What the scalar validator accepts, the SSE2 variant accepts.
use block_type.Prelude.{
  ℕ, zero, suc, ◌-◌, ◌*◌, ◌/◌, ◌≤◌, ◌≡◌, refl, inl, inr, true, false, some, List, [], ◌∷◌, ◌++◌,
  length, drop, length-drop, take, arith, Option-cases, ltb, Bool-cases,
}
use block_type.Validator.{step, validate_loop, validate_scalar}
use block_type.Validator.Sse2.{
  less_than_0x80, all_ascii, sse2_step, sse2_chunk, sse2_loop, validate_sse2,
}

pub sse2_step-step : (a n : ℕ) (p : List ℕ) → step a p ≡ some n → sse2_step a p ≡ some n
unfolding step sse2_step
sse2_step-step a n p e = ground arith

-- Fuel beyond the length changes nothing.
validate_loop-fuel :
    (f f' : ℕ) (ps : List ℕ)
    → length ps ≤ f
    → length ps ≤ f'
    → validate_loop f ps ≡ validate_loop f' ps
unfolding validate_loop
validate_loop-fuel f f' [] h h' = ground arith
validate_loop-fuel zero f' (a ∷ p) h h' = absurd (omega arith)
validate_loop-fuel (suc f) zero (a ∷ p) h h' = absurd (omega arith)
validate_loop-fuel (suc f) (suc f') (a ∷ p) h h' = elim (Option-cases (step a p)) [
  | inl e ↦ ground arith
  | inr (n, e) ↦
      let left = length-drop (n - 1) p in
      ground (arith, validate_loop-fuel f f' (drop (n - 1) p) (omega arith) (omega arith))
]

-- One round of the scalar loop, as a test of the whole text.
pub validate_scalar-step :
    (a : ℕ) (p : List ℕ)
    → validate_scalar (a ∷ p) ≡ true
    → (n : ℕ) × (step a p ≡ some n) × (validate_scalar (drop (n - 1) p) ≡ true)
unfolding validate_scalar validate_loop
validate_scalar-step a p h = elim (Option-cases (step a p)) [
  | inl e ↦ absurd (ground arith)
  | inr (n, e) ↦
      let left = length-drop (n - 1) p in
      (
        n,
        e,
        ground (
          arith,
          validate_loop-fuel (length (drop (n - 1) p)) (length p) (drop (n - 1) p) (omega arith)
              (omega arith),
        ),
      )
]

sse2_chunk-next :
    (k a n : ℕ) (p : List ℕ)
    → sse2_step a p ≡ some n
    → sse2_chunk (suc k) (a ∷ p) ≡ sse2_chunk k (drop (n - 1) p)
unfolding sse2_chunk
sse2_chunk-next k a n p e = rw (sse2_chunk, e) refl

-- A chunk of a valid text passes, and leaves a valid text that is no longer.
sse2_chunk-valid :
    (k : ℕ) (ps : List ℕ)
    → validate_scalar ps ≡ true
    → (p' : List ℕ) × (sse2_chunk k ps ≡ some p')
      × (validate_scalar p' ≡ true)
      × (length p' ≤ length ps)
unfolding sse2_chunk
sse2_chunk-valid zero ps h = (ps, refl, h, omega arith)
sse2_chunk-valid (suc k) [] h = ([], refl, h, omega arith)
sse2_chunk-valid (suc k) (a ∷ p) h =
    let (n, e, left) = validate_scalar-step a p h in
    let (p', e', valid, shorter) = sse2_chunk-valid k (drop (n - 1) p) left in
    (
      p',
      rw (sse2_chunk-next k a n p (sse2_step-step a n p e)) e',
      valid,
      omega (arith, length-drop (n - 1) p),
    )

sse2_chunk-shrinks :
    (a k : ℕ) (p : List ℕ)
    → validate_scalar (a ∷ p) ≡ true
    → (p' : List ℕ) × (sse2_chunk (suc k) (a ∷ p) ≡ some p')
      × (validate_scalar p' ≡ true)
      × (length p' ≤ length p)
sse2_chunk-shrinks a k p h =
    let (n, e, left) = validate_scalar-step a p h in
    let (p', e', valid, shorter) = sse2_chunk-valid k (drop (n - 1) p) left in
    (
      p',
      rw (sse2_chunk-next k a n p (sse2_step-step a n p e)) e',
      valid,
      omega (arith, length-drop (n - 1) p),
    )

-- No chunk passes as ASCII.
pub not_ascii : (a n : ℕ) (p : List ℕ) → all_ascii (take (suc n) (a ∷ p)) ≡ false
unfolding all_ascii less_than_0x80
not_ascii a n p = ground arith

sse2_loop-next :
    (beyond : List ℕ) (fuel rest a : ℕ) (p p' : List ℕ)
    → ltb rest (suc (length p)) ≡ true
    → sse2_chunk 16 (a ∷ p) ≡ some p'
    → sse2_loop beyond (suc fuel) rest (a ∷ p) ≡ sse2_loop beyond fuel rest p'
unfolding sse2_loop
sse2_loop-next beyond fuel rest a p p' more e =
    rw (sse2_loop, more, not_ascii a 15 (p ++ beyond), e) refl

sse2_loop-valid :
    (beyond : List ℕ) (fuel rest : ℕ) (ps : List ℕ)
    → length ps ≤ fuel
    → validate_scalar ps ≡ true
    → (p' : List ℕ) × (sse2_loop beyond fuel rest ps ≡ some p') × (validate_scalar p' ≡ true)
unfolding sse2_loop
sse2_loop-valid beyond zero rest [] h valid = ([], ground arith, valid)
sse2_loop-valid beyond (suc fuel) rest [] h valid = ([], ground arith, valid)
sse2_loop-valid beyond zero rest (a ∷ p) h valid = absurd (omega arith)
sse2_loop-valid beyond (suc fuel) rest (a ∷ p) h valid =
    elim (Bool-cases (ltb rest (suc (length p)))) [
      | inl more ↦
          let (p', e, valid', shorter) = sse2_chunk-shrinks a 15 p valid in
          let (q, e', valid'') = sse2_loop-valid beyond fuel rest p' (omega arith) valid' in
          (q, rw (sse2_loop-next beyond fuel rest a p p' more e) e', valid'')
      | inr end ↦ (a ∷ p, rw (sse2_loop, end) refl, valid)
    ]

-- The SSE2 variant accepts every text that the scalar validator accepts, whatever bytes lie behind
-- the text; its loops end.
pub validate_sse2-validate_scalar :
    (beyond ps : List ℕ) → validate_scalar ps ≡ true → validate_sse2 beyond ps ≡ true
unfolding validate_sse2
validate_sse2-validate_scalar beyond ps valid = elim (Bool-cases (ltb (length ps) 16)) [
  | inl short ↦ rw short valid
  | inr long ↦
      let (p', e, valid') =
        sse2_loop-valid beyond (length ps) (length ps - length ps / 16 * 16) ps (omega arith)
          valid in
      rw (long, e) valid'
]
