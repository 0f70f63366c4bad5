-- ===== src/Ir/Types/Align.antt =====
-- `alignTo` for a power of two.
use native.Mathlib.Nat.{
  pow-suc, one-le-pow, div-add-mod', mod-lt, mod-eq_of_lt, mul-mod_left, div-lt_iff_lt-mul,
}
use block_type.Prelude.{ℕ, zero, suc, ◌+◌, ◌-◌, ◌*◌, ◌/◌, ◌%◌, ◌^◌, ◌≡◌, ◌≤◌, ◌<◌, ◌∙◌, ap, arith}
use block_type.Prelude.Bits.{bit_and_ones, bit_and_shifted}
use block_type.Ir.Types.{u64, align_to}

pow-add : (i j : ℕ) → 2 ^ i * 2 ^ j ≡ 2 ^ (i + j)
pow-add zero j = let e : zero + j ≡ j = omega arith in rw e (omega arith)
pow-add (suc i) j =
    let e : suc i + j ≡ suc (i + j) = omega arith in rw (e, pow-suc) (grind (arith, pow-add i j))

pred_mul : (m p : ℕ) → 1 ≤ m → (m - 1) * p + p ≡ m * p
pred_mul zero p h = absurd (omega arith)
pred_mul (suc m) p h = let e : suc m - 1 ≡ m = omega arith in rw e (grind arith)

module _ (k value : ℕ) (small : k < 64) (room : value + 2 ^ k < 2 ^ 64) where
  abbrev p : ℕ
  p = 2 ^ k

  abbrev m : ℕ
  m = 2 ^ (64 - k)

  p_pos : 1 ≤ p
  p_pos = one-le-pow k 2 (omega arith)

  m_pos : 1 ≤ m
  m_pos = one-le-pow (64 - k) 2 (omega arith)

  pow_split : m * p ≡ 2 ^ 64
  pow_split = let e : 64 - k + k ≡ 64 = omega arith in pow-add (64 - k) k ∙ ap (λ (n : ℕ). 2 ^ n) e

  mask_split : (m - 1) * p ≡ 2 ^ 64 - p
  mask_split = omega (arith, pred_mul m p m_pos, pow_split)

  abbrev x : ℕ
  x = value + p - 1

  block_small : x / p < m
  block_small = (div-lt_iff_lt-mul p_pos).1 (rw pow_split (omega (arith, p_pos)))

  align_to_pow : align_to value p ≡ x / p * p
  unfolding align_to
  align_to_pow =
      let sum : u64 (value + p + 2 ^ 64 - 1) ≡ x = omega (arith, p_pos) in
      let mask : 2 ^ 64 - 1 - u64 (p + 2 ^ 64 - 1) ≡ (m - 1) * p =
        omega (arith, p_pos, mask_split) in
      let kept : x / p % m ≡ x / p = mod-eq_of_lt block_small in
      rw (sum, mask) (rw (bit_and_shifted k x (m - 1), bit_and_ones (64 - k) (x / p), kept))

  pub align_to-IsAligned :
      (value ≤ align_to value p) × (align_to value p < value + p) × (align_to value p % p ≡ 0)
  align_to-IsAligned =
      let whole = div-add-mod' x p in
      let rest = mod-lt x p_pos in
      rw align_to_pow (omega (arith, p_pos), omega (arith, p_pos), mul-mod_left (x / p) p)
