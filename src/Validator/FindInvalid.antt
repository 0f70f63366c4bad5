-- ===== src/Validator/FindInvalid.antt =====
-- `findInvalidScalar` stops at the end of the longest well-formed prefix.
use block_type.Prelude.{
  ℕ, zero, suc, ◌+◌, ◌-◌, ◌≤◌, ◌<◌, ◌≡◌, ◌≢◌, ◌↔◌, inl, inr, Bool, true, some, List, [], ◌∷◌, ◌++◌,
  All-drop, length, drop, take, length-drop, length-append, take-append, drop-append, ap, arith,
  Option-cases, subst,
}
use block_type.Utf8.{encode_utf8}
use block_type.Utf8.Sequences.{IsScalar}
use block_type.Utf8.Canonical.{IsBytes}
use block_type.Validator.{
  expected_byte_count, step, validate_loop, validate_scalar, find_loop, find_invalid_scalar,
}
use block_type.Validator.Step.{step-Skips, step-encode}
use block_type.Validator.Scalar.{WellFormed, WellFormed-nil, WellFormed-cons}

-- A round stays inside the text and moves on.
step_bounds : (a n : ℕ) (p : List ℕ) → step a p ≡ some n → (1 ≤ n) × (n ≤ suc (length p))
unfolding step expected_byte_count
step_bounds a n p e = ground arith

module _ (fuel i a n : ℕ) (p : List ℕ) (go : step a p ≡ some n) where
  find_some : find_loop (suc fuel) i (a ∷ p) ≡ find_loop fuel (i + n) (drop (n - 1) p)
  unfolding find_loop
  find_some = rw (go, find_loop)

  validate_some : validate_loop (suc fuel) (a ∷ p) ≡ validate_loop fuel (drop (n - 1) p)
  unfolding validate_loop
  validate_some = rw (go, validate_loop)

-- `find` has reached the end exactly when `validate` accepts.
abbrev Agree : ℕ → ℕ → Bool → Type 0
Agree found end valid = (found ≤ end) × ((found ≡ end) ↔ (valid ≡ true))

find_loop-validate :
    (fuel i : ℕ) (ps : List ℕ)
    → length ps ≤ fuel
    → Agree (find_loop fuel i ps) (i + length ps) (validate_loop fuel ps)
unfolding find_loop validate_loop
find_loop-validate fuel i [] room = ground arith
find_loop-validate zero i (a ∷ p) room = absurd (omega arith)
find_loop-validate (suc fuel) i (a ∷ p) room = elim (Option-cases (step a p)) [
  | inl stop ↦ ground arith
  | inr (n, go) ↦
      let (lo, hi) = step_bounds a n p go in
      let left = length-drop (n - 1) p in
      let q = drop (n - 1) p in
      let ih = find_loop-validate fuel (i + n) q (omega arith) in
      let end : i + n + length q ≡ i + suc (length p) = omega arith in
      rw (find_some fuel i a n p go) (
        rw (validate_some fuel i a n p go)
          (subst (λ t. Agree (find_loop fuel (i + n) q) t (validate_loop fuel q)) end ih))
]

pub find_invalid_scalar-validate :
    (ps : List ℕ)
    → (find_invalid_scalar ps ≤ length ps)
      × ((find_invalid_scalar ps ≡ length ps) ↔ (validate_scalar ps ≡ true))
unfolding find_invalid_scalar validate_scalar
find_invalid_scalar-validate ps =
    subst (λ t. Agree (find_loop (length ps) 0 ps) t (validate_loop (length ps) ps)) (omega arith)
      (find_loop-validate (length ps) 0 ps (omega arith))

-- No encoded scalar value stands at the front of `ps`.
abbrev pub Stuck : List ℕ → Type 0
Stuck ps = (cp : ℕ) (rest : List ℕ) → IsScalar cp → ps ≢ encode_utf8 cp ++ rest

Stuck-nil : Stuck []
unfolding encode_utf8
Stuck-nil cp rest s e = ground arith

-- `k` bytes are well formed, and nothing can follow them.
pub record Longest (ps : List ℕ) (k : ℕ) : Type 0 where
  pub inside : k ≤ length ps
  pub prefix : WellFormed (take k ps)
  pub stuck : Stuck (drop k ps)

Longest-cons :
    (cp : ℕ) (ps rest : List ℕ) (k : ℕ)
    → IsScalar cp
    → ps ≡ encode_utf8 cp ++ rest
    → Longest rest k
    → Longest ps (length (encode_utf8 cp) + k)
Longest-cons cp ps rest k s e l = rw e (record {
  inside = omega (arith, length-append (encode_utf8 cp) rest, l.inside);
  prefix = WellFormed-cons cp _ (take k rest) s (take-append (encode_utf8 cp) k rest) l.prefix;
  stuck = rw (drop-append (encode_utf8 cp) k rest) l.stuck;
})

find_loop-Longest :
    (fuel i : ℕ) (ps : List ℕ)
    → length ps ≤ fuel
    → IsBytes ps
    → (k : ℕ) × (find_loop fuel i ps ≡ i + k) × Longest ps k
unfolding find_loop
find_loop-Longest fuel i [] room bs =
    (0, omega arith, record { inside = omega arith; prefix = WellFormed-nil; stuck = Stuck-nil })
find_loop-Longest zero i (a ∷ p) room bs = absurd (omega arith)
find_loop-Longest (suc fuel) i (a ∷ p) room bs = elim (Option-cases (step a p)) [
  | inl stop ↦ (
    0,
    ground arith,
    record {
      inside = omega arith;
      prefix = WellFormed-nil;
      stuck = λ cp rest s e. let (n, go, left) = step-encode cp rest a p s e in cc;
    },
  )
  | inr (n, go) ↦
      let (lo, hi) = step_bounds a n p go in
      let q = drop (n - 1) p in
      let left = length-drop (n - 1) p in
      let rest = All-drop (λ b. b < 256) (n - 1) p bs.1 in
      let (cp, s, e) = step-Skips a n p bs go in
      let (k, eq, l) = find_loop-Longest fuel (i + n) q (omega arith) rest in
      let width : length (encode_utf8 cp) ≡ n =
        omega (arith, length-append (encode_utf8 cp) q, ap length e) in
      (
        length (encode_utf8 cp) + k,
        rw (find_some fuel i a n p go) (omega arith),
        Longest-cons cp (a ∷ p) q k s e l,
      )
]

-- On a text of bytes the result of `findInvalidScalar` splits the text: what stands before it is
-- well-formed UTF-8, and what stands behind it does not begin with an encoded scalar value.
pub find_invalid_scalar-Longest : (ps : List ℕ) → IsBytes ps → Longest ps (find_invalid_scalar ps)
unfolding find_invalid_scalar
find_invalid_scalar-Longest ps bs =
    let (k, e, l) = find_loop-Longest (length ps) 0 ps (omega arith) bs in
    let same : find_loop (length ps) 0 ps ≡ k = omega arith in rw same l
