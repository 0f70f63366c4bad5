-- ===== src/Utf8/Canonical.antt =====
-- What the decoder accepts.
use block_type.Prelude.{
  ℕ, suc, ◌+◌, ◌*◌, ◌%◌, ◌≤◌, ◌<◌, ◌≡◌, ◌≢◌, ◌⊎◌, ◌&&◌, some, none, List, [], ◌∷◌, ◌++◌, All,
  length, arith, ltb, leb, if◌then◌else◌, dec_lt,
}
use block_type.Utf8.{
  invalid, lead, continuation, accept, finish, decode_sequence, encode_utf8, decode_utf8,
}
use block_type.Utf8.Bytes.{
  Continues, is_continuation-range, lead_two, lead_three, lead_four, shift_in, lead-two, lead-three,
  lead-four,
}
use block_type.Utf8.Sequences.{IsScalar}
use block_type.Utf8.Encodings.{encode_one, encode_two, encode_three, encode_four}

abbrev pub IsBytes : List ℕ → Type 0
IsBytes = All (λ b. b < 256)

continuation_step :
    (n cp b : ℕ) (p : List ℕ)
    → cp < 0x100000
    → b < 256
    → continuation (suc n) cp (b ∷ p)
      ≡ (if leb 0x80 b && ltb b 0xC0 then continuation n (cp * 64 + b % 64) p else (none, p))
unfolding continuation
continuation_step n cp b p small byte = ground (arith, is_continuation-range b, shift_in cp b)

decode_step :
    (n cp a : ℕ) (p : List ℕ)
    → 0xC0 ≤ a
    → a < 256
    → lead a ≡ some (suc n, cp)
    → decode_utf8 (a ∷ p)
      ≡ (if ltb (length p) n then (invalid, p) else finish (suc n) (continuation n cp p))
unfolding decode_utf8 decode_sequence
decode_step n cp a p lo hi l = ground (arith, is_continuation-range a)

-- The bytes `ps` begin with the encoding of the scalar value `cp`, and `rest` follows.
abbrev pub Encodes : List ℕ → ℕ → List ℕ → Type 0
Encodes ps cp rest = IsScalar cp × (ps ≡ encode_utf8 cp ++ rest)

-- What holds of a code point that the last tests let through.
record Accepted (n x cp : ℕ) : Type 0 where
  same : cp ≡ x
  scalar : IsScalar cp
  two : n ≡ 2 → 0x80 ≤ cp
  three : n ≡ 3 → 0x800 ≤ cp
  four : n ≡ 4 → 0x10000 ≤ cp

accept-Accepted : (n x cp : ℕ) → cp ≢ invalid → accept n x ≡ cp → Accepted n x cp
unfolding accept
accept-Accepted n x cp real e = ground arith

module _ (cp : ℕ) (rest : List ℕ) (real : cp ≢ invalid) where
  -- The last round of the loop, and the tests.
  last_round :
      (n x b : ℕ) (q : List ℕ)
      → x < 0x8000
      → b < 256
      → finish n (continuation 1 x (b ∷ q)) ≡ (cp, rest)
      → Continues b × (q ≡ rest) × Accepted n (x * 64 + b % 64) cp
  unfolding finish continuation
  last_round n x b q small byte e =
      let next = continuation_step 0 x b q (omega arith) byte in
      ground (arith, accept-Accepted n (x * 64 + b % 64) cp)

  -- An earlier one.
  earlier_round :
      (n m x b : ℕ) (q : List ℕ)
      → x < 0x8000
      → b < 256
      → finish n (continuation (suc (suc m)) x (b ∷ q)) ≡ (cp, rest)
      → Continues b × (finish n (continuation (suc m) (x * 64 + b % 64) q) ≡ (cp, rest))
  unfolding finish
  earlier_round n m x b q small byte e =
      let next = continuation_step (suc m) x b q (omega arith) byte in ground arith

  after_lead :
      (n x a : ℕ) (p : List ℕ)
      → 0xC0 ≤ a
      → a < 256
      → lead a ≡ some (suc n, x)
      → decode_utf8 (a ∷ p) ≡ (cp, rest)
      → (n ≤ length p) × (finish (suc n) (continuation n x p) ≡ (cp, rest))
  after_lead n x a p lo hi l e = let step = decode_step n x a p lo hi l in ground arith

  two_bytes_read :
      (a : ℕ) (p : List ℕ)
      → IsBytes p
      → 0xC0 ≤ a
      → a < 0xE0
      → decode_utf8 (a ∷ p) ≡ (cp, rest)
      → Encodes (a ∷ p) cp rest
  two_bytes_read a [] bs lo hi e =
      absurd (omega (arith, after_lead 1 (a % 32) a [] lo (omega arith) (lead-two a lo hi) e))
  two_bytes_read a (b ∷ q) bs lo hi e =
      let start = after_lead 1 (a % 32) a (b ∷ q) lo (omega arith) (lead-two a lo hi) e in
      let (cont, left, acc) = last_round 2 (a % 32) b q (omega arith) bs.0 start.1 in
      (acc.scalar, rw (encode_two cp (omega arith) (omega arith)) (ground arith))

  three_bytes_read :
      (a : ℕ) (p : List ℕ)
      → IsBytes p
      → 0xE0 ≤ a
      → a < 0xF0
      → decode_utf8 (a ∷ p) ≡ (cp, rest)
      → Encodes (a ∷ p) cp rest
  three_bytes_read a (b ∷ c ∷ q) bs lo hi e =
      let x = a % 16 in
      let start = after_lead 2 x a (b ∷ c ∷ q) (omega arith) (omega arith) (lead-three a lo hi) e in
      let (cb, more) = earlier_round 3 0 x b (c ∷ q) (omega arith) bs.0 start.1 in
      let (mc, left, acc) = last_round 3 (x * 64 + b % 64) c q (omega arith) bs.1.0 more in
      (acc.scalar, rw (encode_three cp (omega arith) (omega arith)) (ground arith))
  three_bytes_read a p bs lo hi e =
      absurd (
        omega (arith, after_lead 2 (a % 16) a p (omega arith) (omega arith) (lead-three a lo hi) e))

  four_bytes_read :
      (a : ℕ) (p : List ℕ)
      → IsBytes p
      → 0xF0 ≤ a
      → a < 0xF8
      → decode_utf8 (a ∷ p) ≡ (cp, rest)
      → Encodes (a ∷ p) cp rest
  four_bytes_read a (b ∷ c ∷ d ∷ q) bs lo hi e =
      let x = a % 8 in
      let p : List ℕ = b ∷ c ∷ d ∷ q in
      let start = after_lead 3 x a p (omega arith) (omega arith) (lead-four a lo hi) e in
      let (cb, more) = earlier_round 4 1 x b (c ∷ d ∷ q) (omega arith) bs.0 start.1 in
      let y = x * 64 + b % 64 in
      let (mc, last) = earlier_round 4 0 y c (d ∷ q) (omega arith) bs.1.0 more in
      let (md, left, acc) = last_round 4 (y * 64 + c % 64) d q (omega arith) bs.1.1.0 last in
      (acc.scalar, rw (encode_four cp (omega arith) (omega arith)) (ground arith))
  four_bytes_read a p bs lo hi e =
      absurd
        (omega (arith, after_lead 3 (a % 8) a p (omega arith) (omega arith) (lead-four a lo hi) e))

ascii_read :
    (a cp : ℕ) (p rest : List ℕ)
    → a < 0x80
    → decode_utf8 (a ∷ p) ≡ (cp, rest)
    → Encodes (a ∷ p) cp rest
unfolding decode_utf8
ascii_read a cp p rest h e =
    let (same, left) : (a ≡ cp) × (p ≡ rest) = ground arith in
    rw (← same) (omega arith, rw (encode_one a h) (ground arith))

-- Bytes that begin no sequence.
no_lead :
    (a : ℕ) (p : List ℕ)
    → 0x80 ≤ a
    → a < 256
    → (a < 0xC0) ⊎ (0xF8 ≤ a)
    → decode_utf8 (a ∷ p) ≡ (invalid, p)
unfolding decode_utf8 decode_sequence lead
no_lead a p lo hi out =
    ground (arith, is_continuation-range a, lead_two a, lead_three a, lead_four a)

-- If the decoder returns anything but the error value on a text of bytes, it returns a Unicode
-- scalar value, the text begins with that value's encoding, and the pointer stands right behind it:
-- overlong forms, surrogates and truncated sequences are all refused.
pub decode-canonical :
    (ps : List ℕ) (cp : ℕ) (rest : List ℕ)
    → IsBytes ps
    → decode_utf8 ps ≡ (cp, rest)
    → cp ≢ invalid
    → Encodes ps cp rest
decode-canonical [] cp rest bs e real = absurd (real (unfold decode_utf8 in cc))
decode-canonical (a ∷ p) cp rest bs e real = elim (dec_lt a 0x80) [
  | yes h ↦ ascii_read a cp p rest h e
  | no h ↦ elim (dec_lt a 0xC0) [
    | yes c ↦ absurd (real (ground (arith, no_lead a p)))
    | no nc ↦ elim (dec_lt a 0xE0) [
      | yes two ↦ two_bytes_read cp rest real a p bs.1 (omega arith) two e
      | no n2 ↦ elim (dec_lt a 0xF0) [
        | yes three ↦ three_bytes_read cp rest real a p bs.1 (omega arith) three e
        | no n3 ↦ elim (dec_lt a 0xF8) [
          | yes four ↦ four_bytes_read cp rest real a p bs.1 (omega arith) four e
          | no n4 ↦ absurd (real (ground (arith, no_lead a p)))
        ]
      ]
    ]
  ]
]
