-- ===== src/Validator/Step.antt =====
-- One round of the validator's loop: it skips exactly one encoded scalar value, or returns.
use block_type.Prelude.{
  ℕ, suc, ◌+◌, ◌-◌, ◌*◌, ◌/◌, ◌%◌, ◌≤◌, ◌<◌, ◌≡◌, ◌⊎◌, ◌&&◌, some, none, List, [], ◌∷◌, ◌++◌,
  length, drop, arith, ltb, leb, if◌then◌else◌, dec_lt,
}
use block_type.Utf8.{encode_utf8}
use block_type.Utf8.Bytes.{
  Continues, is_ascii-range, is_continuation-range, lead_two, lead_three, lead_four,
}
use block_type.Utf8.Sequences.{IsScalar}
use block_type.Utf8.Encodings.{encode_one, encode_two, encode_three, encode_four}
use block_type.Utf8.Canonical.{IsBytes}
use block_type.Validator.{
  is_continuation_byte, expected_byte_count, all_continuation, code_point, in_range, step,
}
use block_type.Validator.Masks.{code_point_two, code_point_three, code_point_four}

continues : (b : ℕ) → b < 256 → is_continuation_byte b ≡ (leb 0x80 b && ltb b 0xC0)
unfolding is_continuation_byte
continues b h = is_continuation-range b h

module _ (a : ℕ) (byte : a < 256) where
  count_lead : expected_byte_count a ≡ (
      if ltb a 0x80
      then 1
      else if ltb a 0xC0
      then 0
      else if ltb a 0xE0
      then 2
      else if ltb a 0xF0
      then 3
      else if ltb a 0xF8
      then 4
      else 0)
  unfolding expected_byte_count
  count_lead = ground (arith, is_ascii-range a, lead_two a, lead_three a, lead_four a)

step_one : (a : ℕ) (p : List ℕ) → a < 0x80 → step a p ≡ some 1
unfolding step
step_one a p h = ground (arith, is_ascii-range a)

step_stray : (a : ℕ) (p : List ℕ) → 0x80 ≤ a → a < 256 → (a < 0xC0) ⊎ (0xF8 ≤ a) → step a p ≡ none
unfolding step
step_stray a p lo byte h = ground (arith, is_ascii-range a, count_lead a)

-- A lead byte of a sequence of `suc n` bytes.
step_many :
    (a n : ℕ) (p : List ℕ)
    → 0x80 ≤ a
    → a < 256
    → 1 ≤ n
    → expected_byte_count a ≡ suc n
    → step a p ≡ (
        if ltb (length p) n
        then none
        else if all_continuation n p
        then (if in_range (suc n) (code_point (suc n) a p) then some (suc n) else none)
        else none)
unfolding step
step_many a n p lo byte pos e = rw e (ground (arith, is_ascii-range a))

-- The round at each kind of lead byte.
abbrev Round : ℕ → ℕ → List ℕ → Type 0
Round n a p = step a p ≡ (
    if ltb (length p) n
    then none
    else if all_continuation n p
    then (if in_range (suc n) (code_point (suc n) a p) then some (suc n) else none)
    else none)

module _ (a : ℕ) (p : List ℕ) where
  Round-two : 0xC0 ≤ a → a < 0xE0 → Round 1 a p
  Round-two lo hi =
      step_many a 1 p (omega arith) (omega arith) (omega arith) (ground (arith, count_lead a))

  Round-three : 0xE0 ≤ a → a < 0xF0 → Round 2 a p
  Round-three lo hi =
      step_many a 2 p (omega arith) (omega arith) (omega arith) (ground (arith, count_lead a))

  Round-four : 0xF0 ≤ a → a < 0xF8 → Round 3 a p
  Round-four lo hi =
      step_many a 3 p (omega arith) (omega arith) (omega arith) (ground (arith, count_lead a))

-- The `n` bytes at the front of `a ∷ p` encode one scalar value.
abbrev pub Skips : ℕ → List ℕ → ℕ → Type 0
Skips a p n = (cp : ℕ) × IsScalar cp × (a ∷ p ≡ encode_utf8 cp ++ drop (n - 1) p)

module _ (a n : ℕ) where
  Skips-two : (p : List ℕ) → IsBytes p → 0xC0 ≤ a → a < 0xE0 → step a p ≡ some n → Skips a p n
  unfolding all_continuation in_range
  Skips-two (b ∷ p) bs lo hi e =
      let cp = a % 32 * 64 + b % 64 in
      let many = Round-two a (b ∷ p) lo hi in
      let (size, cb, big) : (n ≡ 2) × Continues b × (0x80 ≤ cp) =
        ground (arith, continues b, code_point_two a b p) in
      (cp, (omega arith), rw size (rw (encode_two cp big (omega arith)) (ground arith)))
  Skips-two [] bs lo hi e = let many = Round-two a [] lo hi in absurd (ground arith)

  Skips-three : (p : List ℕ) → IsBytes p → 0xE0 ≤ a → a < 0xF0 → step a p ≡ some n → Skips a p n
  unfolding all_continuation in_range
  Skips-three (b ∷ c ∷ p) bs lo hi e =
      let cp = (a % 16 * 64 + b % 64) * 64 + c % 64 in
      let many = Round-three a (b ∷ c ∷ p) lo hi in
      let (size, cb, mc, big, s) : (n ≡ 3)
          × Continues b
          × Continues c
          × (0x800 ≤ cp)
          × IsScalar cp =
        ground (arith, continues b, continues c, code_point_three a b p c) in
      (cp, s, rw size (rw (encode_three cp big (omega arith)) (ground arith)))
  Skips-three p bs lo hi e = let many = Round-three a p lo hi in absurd (ground arith)

  Skips-four : (p : List ℕ) → IsBytes p → 0xF0 ≤ a → a < 0xF8 → step a p ≡ some n → Skips a p n
  unfolding all_continuation in_range
  Skips-four (b ∷ c ∷ d ∷ p) bs lo hi e =
      let cp = ((a % 8 * 64 + b % 64) * 64 + c % 64) * 64 + d % 64 in
      let many = Round-four a (b ∷ c ∷ d ∷ p) lo hi in
      let (size, cb, mc, md, big, s) : (n ≡ 4)
          × Continues b
          × Continues c
          × Continues d
          × (0x10000 ≤ cp)
          × (cp < 0x110000) =
        ground (arith, continues b, continues c, continues d, code_point_four a b p c d) in
      (cp, (omega arith), rw size (rw (encode_four cp big s) (ground arith)))
  Skips-four p bs lo hi e = let many = Round-four a p lo hi in absurd (ground arith)

-- A round that skips bytes skips the encoding of one scalar value.
pub step-Skips : (a n : ℕ) (p : List ℕ) → IsBytes (a ∷ p) → step a p ≡ some n → Skips a p n
step-Skips a n p bs e = elim (dec_lt a 0x80) [
  | yes h ↦
      let size : n ≡ 1 = ground (arith, step_one a p h) in
      (a, (omega arith), rw (encode_one a h, size))
  | no h ↦ elim (dec_lt a 0xC0) [
    | yes c ↦ absurd (ground (arith, step_stray a p))
    | no nc ↦ elim (dec_lt a 0xE0) [
      | yes two ↦ Skips-two a n p bs.1 (omega arith) two e
      | no n2 ↦ elim (dec_lt a 0xF0) [
        | yes three ↦ Skips-three a n p bs.1 (omega arith) three e
        | no n3 ↦ elim (dec_lt a 0xF8) [
          | yes four ↦ Skips-four a n p bs.1 (omega arith) four e
          | no n4 ↦ absurd (ground (arith, step_stray a p))
        ]
      ]
    ]
  ]
]

-- And at the encoding of a scalar value a round skips just that encoding.
module _ (cp : ℕ) (rest : List ℕ) where
  pub step-encode :
      (a : ℕ) (p : List ℕ)
      → IsScalar cp
      → a ∷ p ≡ encode_utf8 cp ++ rest
      → (n : ℕ) × (step a p ≡ some n) × (drop (n - 1) p ≡ rest)
  unfolding all_continuation in_range
  step-encode a p s e = elim (dec_lt cp 0x80) [
    | yes h ↦
        let same = rw (encode_one cp h) at e in (1, ground (arith, step_one a p), ground arith)
    | no h ↦ elim (dec_lt cp 0x800) [
      | yes h2 ↦
          let same = rw (encode_two cp (omega arith) h2) at e in
          let b = 0x80 + cp % 64 in
          (2, ground (arith, Round-two a p, continues b, code_point_two a b rest), ground arith)
      | no n2 ↦ elim (dec_lt cp 0x10000) [
        | yes h3 ↦
            let same = rw (encode_three cp (omega arith) h3) at e in
            let b = 0x80 + cp / 64 % 64 in
            let c = 0x80 + cp % 64 in
            (
              3,
              ground
                  (arith, Round-three a p, continues b, continues c, code_point_three a b rest c),
              ground arith,
            )
        | no n3 ↦
            let same = rw (encode_four cp (omega arith) s.0) at e in
            let b = 0x80 + cp / 4096 % 64 in
            let c = 0x80 + cp / 64 % 64 in
            let d = 0x80 + cp % 64 in
            (
              4,
              ground (
                arith,
                Round-four a p,
                continues b,
                continues c,
                continues d,
                code_point_four a b rest c d,
              ),
              ground arith,
            )
      ]
    ]
  ]
