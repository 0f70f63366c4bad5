-- ===== src/Utf8/Sequences.antt =====
-- What the decoder does with a whole sequence of each length, in plain arithmetic.
use block_type.Prelude.{ℕ, suc, ◌+◌, ◌*◌, ◌%◌, ◌≤◌, ◌<◌, ◌≡◌, ◌⊎◌, some, List, ◌∷◌, length, arith}
use block_type.Utf8.{lead, continuation, accept, finish, decode_sequence, decode_utf8}
use block_type.Utf8.Bytes.{
  Continues, is_continuation-range, shift_in, lead-two, lead-three, lead-four,
}

-- The Unicode scalar values.
abbrev pub IsScalar : ℕ → Type 0
IsScalar cp = (cp < 0x110000) × ((cp < 0xD800) ⊎ (0xDFFF < cp))

continuation_one :
    (n cp b : ℕ) (p : List ℕ)
    → cp < 0x100000
    → Continues b
    → continuation (suc n) cp (b ∷ p) ≡ continuation n (cp * 64 + b % 64) p
unfolding continuation
continuation_one n cp b p small c = ground (arith, is_continuation-range b, shift_in cp b)

accept_lem :
    (n cp : ℕ)
    → IsScalar cp
    → (n ≡ 2 → 0x80 ≤ cp)
    → (n ≡ 3 → 0x800 ≤ cp)
    → (n ≡ 4 → 0x10000 ≤ cp)
    → accept n cp ≡ cp
unfolding accept
accept_lem n cp s two three four = ground arith

decode_lead :
    (n cp a : ℕ) (p : List ℕ)
    → 0xC0 ≤ a
    → a < 256
    → lead a ≡ some (suc n, cp)
    → n ≤ length p
    → decode_utf8 (a ∷ p) ≡ finish (suc n) (continuation n cp p)
unfolding decode_utf8 decode_sequence
decode_lead n cp a p lo hi l room = ground (arith, is_continuation-range a)

module _ (a b cp : ℕ) (p : List ℕ) (cb : Continues b) where
  pub decode_two :
      0xC0 ≤ a
      → a < 0xE0
      → cp ≡ a % 32 * 64 + b % 64
      → 0x80 ≤ cp
      → decode_utf8 (a ∷ b ∷ p) ≡ (cp, p)
  unfolding finish continuation
  decode_two lo hi e big =
      rw (decode_lead 1 (a % 32) a (b ∷ p) lo (omega arith) (lead-two a lo hi) (omega arith)) (
        rw (continuation_one 0 (a % 32) b p (omega arith) cb)
          (ground (arith, accept_lem 2 (a % 32 * 64 + b % 64))))

  pub decode_three :
      (c : ℕ)
      → Continues c
      → 0xE0 ≤ a
      → a < 0xF0
      → cp ≡ (a % 16 * 64 + b % 64) * 64 + c % 64
      → 0x800 ≤ cp
      → IsScalar cp
      → decode_utf8 (a ∷ b ∷ c ∷ p) ≡ (cp, p)
  unfolding finish continuation
  decode_three c mc lo hi e big s =
      rw
        (decode_lead 2 (a % 16) a (b ∷ c ∷ p) (omega arith) (omega arith) (lead-three a lo hi)
          (omega arith))
        (rw (continuation_one 1 (a % 16) b (c ∷ p) (omega arith) cb) (
          rw (continuation_one 0 (a % 16 * 64 + b % 64) c p (omega arith) mc)
            (rw (← e) (ground (arith, accept_lem 3 cp)))))

  pub decode_four :
      (c d : ℕ)
      → Continues c
      → Continues d
      → 0xF0 ≤ a
      → a < 0xF8
      → cp ≡ ((a % 8 * 64 + b % 64) * 64 + c % 64) * 64 + d % 64
      → 0x10000 ≤ cp
      → cp < 0x110000
      → decode_utf8 (a ∷ b ∷ c ∷ d ∷ p) ≡ (cp, p)
  unfolding finish continuation
  decode_four c d mc md lo hi e big small =
      let q : List ℕ = c ∷ d ∷ p in
      rw
        (decode_lead 3 (a % 8) a (b ∷ q) (omega arith) (omega arith) (lead-four a lo hi)
          (omega arith))
        (rw (continuation_one 2 (a % 8) b q (omega arith) cb) (
          rw (continuation_one 1 (a % 8 * 64 + b % 64) c (d ∷ p) (omega arith) mc) (
            rw (continuation_one 0 ((a % 8 * 64 + b % 64) * 64 + c % 64) d p (omega arith) md)
              (rw (← e) (ground (arith, accept_lem 4 cp))))))
