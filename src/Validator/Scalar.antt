-- ===== src/Validator/Scalar.antt =====
-- `validateScalar` decides well-formed UTF-8.
use block_type.Prelude.{
  ℕ, zero, suc, ◌-◌, ◌≤◌, ◌<◌, ◌≡◌, ◌↔◌, ◌∙◌, ap, refl, inl, inr, true, List, [], ◌∷◌, ◌++◌, All,
  All-drop, length, drop, length-drop, arith, Option-cases,
}
use block_type.Utf8.{encode_utf8}
use block_type.Utf8.Sequences.{IsScalar}
use block_type.Utf8.Canonical.{IsBytes}
use block_type.Validator.{step, validate_loop, validate_scalar}
use block_type.Validator.Step.{step-Skips, step-encode}

unfoldable pub encode_all : List ℕ → List ℕ
encode_all [] = []
encode_all (cp ∷ cps) = encode_utf8 cp ++ encode_all cps

-- A text that is the encodings of some scalar values, one after the other.
abbrev pub WellFormed : List ℕ → Type 0
WellFormed ps = (cps : List ℕ) × All IsScalar cps × (ps ≡ encode_all cps)

pub WellFormed-cons :
    (cp : ℕ) (ps rest : List ℕ)
    → IsScalar cp
    → ps ≡ encode_utf8 cp ++ rest
    → WellFormed rest
    → WellFormed ps
unfolding encode_all
WellFormed-cons cp ps rest s e (cps, all, eq) =
    (cp ∷ cps, (s, all), e ∙ ap (λ l. encode_utf8 cp ++ l) eq)

pub WellFormed-nil : WellFormed []
unfolding encode_all
WellFormed-nil = ([], tt, refl)

loop_sound : (fuel : ℕ) (ps : List ℕ) → IsBytes ps → validate_loop fuel ps ≡ true → WellFormed ps
unfolding validate_loop
loop_sound fuel [] bs h = WellFormed-nil
loop_sound zero (a ∷ p) bs h = absurd (cc)
loop_sound (suc fuel) (a ∷ p) bs h = elim (Option-cases (step a p)) [
  | inl stop ↦ absurd (ground arith)
  | inr (n, go) ↦
      let (cp, s, e) = step-Skips a n p bs go in
      let rest = All-drop (λ b. b < 256) (n - 1) p bs.1 in
      WellFormed-cons cp (a ∷ p) (drop (n - 1) p) s e (loop_sound fuel _ rest (ground arith))
]

loop_complete :
    (fuel : ℕ) (ps cps : List ℕ)
    → length ps ≤ fuel
    → All IsScalar cps
    → ps ≡ encode_all cps
    → validate_loop fuel ps ≡ true
unfolding validate_loop encode_all
loop_complete fuel [] cps room all e = refl
loop_complete zero (a ∷ p) cps room all e = absurd (omega arith)
loop_complete (suc fuel) (a ∷ p) [] room all e = cc
loop_complete (suc fuel) (a ∷ p) (cp ∷ cps) room all e =
    let (n, go, left) = step-encode cp (encode_all cps) a p all.0 e in
    rw (go, validate_loop)
      (loop_complete fuel (drop (n - 1) p) cps (omega (arith, length-drop (n - 1) p)) all.1 left)

-- On a text of bytes the scalar validator returns `true` exactly when the text is well-formed
-- UTF-8: the encodings of Unicode scalar values, and nothing else.
pub validate_scalar_iff : (ps : List ℕ) → IsBytes ps → (validate_scalar ps ≡ true) ↔ WellFormed ps
unfolding validate_scalar
validate_scalar_iff ps bs = (
  loop_sound (length ps) ps bs,
  λ (cps, all, e). loop_complete (length ps) ps cps (omega arith) all e,
)
