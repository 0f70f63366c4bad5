-- ===== src/Utf8/Bytes.antt =====
-- The masks of the codec as arithmetic, checked at every byte.
use block_type.Prelude.{
  ℕ, ◌+◌, ◌*◌, ◌%◌, ◌^◌, ◌≤◌, ◌<◌, ◌≡◌, refl, Bool, true, false, ◌&&◌, not, some, arith, bit_and,
  bit_or, ltb, leb, ◌==◌,
}
use block_type.Prelude.Bits.{
  shl32, all_below, all_below_sound, bit_or-add, bit_and_07, bit_and_0f, bit_and_1f, bit_and_3f,
}
use block_type.Utf8.{lead}

same : Bool → Bool → Bool
same true b = b
same false b = not b

same→eq : (a b : Bool) → same a b ≡ true → a ≡ b
unfolding same
same→eq a b h = ground arith

-- A test on a byte that a table shows to be another one.
by_table :
    (f g : ℕ → Bool) → all_below 256 (λ x. same (f x) (g x)) ≡ true → (b : ℕ) → b < 256 → f b ≡ g b
by_table f g table b h = same→eq (f b) (g b) (all_below_sound _ 256 b h table)

pub is_continuation-range :
    (b : ℕ) → b < 256 → (bit_and b 0xC0 == 0x80) ≡ (leb 0x80 b && ltb b 0xC0)
unfolding all_below same
is_continuation-range = by_table _ _ refl

pub lead_two : (b : ℕ) → b < 256 → (bit_and b 0xE0 == 0xC0) ≡ (leb 0xC0 b && ltb b 0xE0)
unfolding all_below same
lead_two = by_table _ _ refl

pub lead_three : (b : ℕ) → b < 256 → (bit_and b 0xF0 == 0xE0) ≡ (leb 0xE0 b && ltb b 0xF0)
unfolding all_below same
lead_three = by_table _ _ refl

pub lead_four : (b : ℕ) → b < 256 → (bit_and b 0xF8 == 0xF0) ≡ (leb 0xF0 b && ltb b 0xF8)
unfolding all_below same
lead_four = by_table _ _ refl

pub is_ascii-range : (b : ℕ) → b < 256 → (bit_and b 0x80 == 0) ≡ ltb b 0x80
unfolding all_below same
is_ascii-range = by_table _ _ refl

-- A marker above a field: `0x80 | x` with six bits, and the like.
module _ (x : ℕ) where
  pub or_80 : x < 64 → bit_or 0x80 x ≡ 0x80 + x
  or_80 h = bit_or-add 6 2 x h

  pub or_c0 : x < 32 → bit_or 0xC0 x ≡ 0xC0 + x
  or_c0 h = bit_or-add 6 3 x (omega arith)

  pub or_e0 : x < 16 → bit_or 0xE0 x ≡ 0xE0 + x
  or_e0 h = bit_or-add 5 7 x (omega arith)

  pub or_f0 : x < 8 → bit_or 0xF0 x ≡ 0xF0 + x
  or_f0 h = bit_or-add 4 15 x (omega arith)

-- One round of the decoder: no bit is lost while the code point has at most 26.
pub shift_in : (cp b : ℕ) → cp < 2 ^ 26 → bit_or (shl32 cp 6) (bit_and b 0x3F) ≡ cp * 64 + b % 64
shift_in cp b h =
    let kept : cp * 2 ^ 6 % 2 ^ 32 ≡ cp * 2 ^ 6 = omega arith in
    rw (bit_and_3f b, kept) (bit_or-add 6 cp (b % 64) (omega arith))

abbrev pub Continues : ℕ → Type 0
Continues b = (0x80 ≤ b) × (b < 0xC0)

-- The lead bytes, and what they carry.
pub lead-two : (b : ℕ) → 0xC0 ≤ b → b < 0xE0 → lead b ≡ some (2, b % 32)
unfolding lead
lead-two b lo hi = ground (arith, lead_two b, bit_and_1f b)

pub lead-three : (b : ℕ) → 0xE0 ≤ b → b < 0xF0 → lead b ≡ some (3, b % 16)
unfolding lead
lead-three b lo hi = ground (arith, lead_two b, lead_three b, bit_and_0f b)

pub lead-four : (b : ℕ) → 0xF0 ≤ b → b < 0xF8 → lead b ≡ some (4, b % 8)
unfolding lead
lead-four b lo hi = ground (arith, lead_two b, lead_three b, lead_four b, bit_and_07 b)
