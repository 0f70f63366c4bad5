-- ===== src/Utf8/Encodings.antt =====
-- What the encoder writes, in plain arithmetic: the table of RFC 3629.
use block_type.Prelude.{ℕ, ◌+◌, ◌/◌, ◌%◌, ◌≤◌, ◌<◌, ◌≡◌, List, [], ◌∷◌, arith}
use block_type.Prelude.Bits.{bit_and_3f}
use block_type.Utf8.{encode_utf8}
use block_type.Utf8.Bytes.{or_80, or_c0, or_e0, or_f0}

abbrev two_bytes : ℕ → List ℕ
two_bytes cp = (0xC0 + cp / 64) ∷ (0x80 + cp % 64) ∷ []

abbrev three_bytes : ℕ → List ℕ
three_bytes cp = (0xE0 + cp / 4096) ∷ (0x80 + cp / 64 % 64) ∷ (0x80 + cp % 64) ∷ []

abbrev four_bytes : ℕ → List ℕ
four_bytes cp =
    (0xF0 + cp / 262144) ∷ (0x80 + cp / 4096 % 64) ∷ (0x80 + cp / 64 % 64) ∷ (0x80 + cp % 64) ∷ []

module _ (cp : ℕ) where
  pub encode_one : cp < 0x80 → encode_utf8 cp ≡ cp ∷ []
  unfolding encode_utf8
  encode_one h = ground arith

  pub encode_two : 0x80 ≤ cp → cp < 0x800 → encode_utf8 cp ≡ two_bytes cp
  unfolding encode_utf8
  encode_two lo hi = ground (arith, or_c0 (cp / 64), bit_and_3f cp, or_80 (cp % 64))

  pub encode_three : 0x800 ≤ cp → cp < 0x10000 → encode_utf8 cp ≡ three_bytes cp
  unfolding encode_utf8
  encode_three lo hi = ground (
    arith,
    or_e0 (cp / 4096),
    bit_and_3f cp,
    bit_and_3f (cp / 64),
    or_80 (cp % 64),
    or_80 (cp / 64 % 64),
  )

  pub encode_four : 0x10000 ≤ cp → cp < 0x110000 → encode_utf8 cp ≡ four_bytes cp
  unfolding encode_utf8
  encode_four lo hi = ground (
    arith,
    or_f0 (cp / 262144),
    bit_and_3f cp,
    bit_and_3f (cp / 64),
    bit_and_3f (cp / 4096),
    or_80 (cp % 64),
    or_80 (cp / 64 % 64),
    or_80 (cp / 4096 % 64),
  )
