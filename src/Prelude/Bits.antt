-- ===== src/Prelude/Bits.antt =====
-- Bit operations at variables, in the form that `omega` reads: `/` and `%` by powers of two.
use Prim.Native.Nat.{
  ℕ, zero, suc, ◌+◌, ◌-◌, ◌*◌, ◌/◌, ◌%◌, ◌^◌, ◌≤◌, ◌<◌, min, max, bit_and, bit_or, digits, bitwise,
  bit_and-bitwise, bit_or-bitwise, bit_xor, bit_xor-bitwise, differ,
}
use mathlib.Core.Path.{◌≡◌, refl, ap, ◌∙◌}
use mathlib.Core.Bool.{Bool, true, ◌&&◌}
use native.Mathlib.Nat.{pow-suc, one-le-pow, mod-eq-sub-mul-div, mul-div-le, div-div-eq-div-mul}
use native.Mathlib.Omega.{arith}

-- `x << k` on a `uint32_t`, and `x >> k`.
abbrev pub shl32 : ℕ → ℕ → ℕ
shl32 x k = x * 2 ^ k % 2 ^ 32

abbrev pub shr : ℕ → ℕ → ℕ
shr x k = x / 2 ^ k

-- A property of every number below a bound, by evaluation.
unfoldable pub all_below : ℕ → (ℕ → Bool) → Bool
all_below zero p = true
all_below (suc n) p = p n && all_below n p

pub all_below_sound : (p : ℕ → Bool) (n x : ℕ) → x < n → all_below n p ≡ true → p x ≡ true
unfolding all_below
all_below_sound p zero x lt h = absurd (omega arith)
all_below_sound p (suc n) x lt h = ground (arith, all_below_sound p n x)

-- How many digits are to go does not matter once the first number has run out.
module _ (rest : ℕ → ℕ) (op : ℕ → ℕ → ℕ) where
  same_digits : (n m a b : ℕ) → a < suc n → a < suc m → digits rest op n a b ≡ digits rest op m a b
  same_digits (suc n) (suc m) (suc a) b p q =
      ap (λ (t : ℕ). t * 2 + op (suc a % 2) (b % 2))
        (same_digits n m (suc a / 2) (b / 2) (omega arith) (omega arith))
  same_digits zero m (suc a) b p q = absurd (omega arith)
  same_digits (suc n) zero (suc a) b p q = absurd (omega arith)
  same_digits zero zero zero b p q = refl
  same_digits zero (suc m) zero b p q = refl
  same_digits (suc n) zero zero b p q = refl
  same_digits (suc n) (suc m) zero b p q = refl

  bitwise_low :
      (a b : ℕ)
      → bitwise rest op (suc a) b ≡ bitwise rest op (suc a / 2) (b / 2) * 2 + op (suc a % 2) (b % 2)
  bitwise_low a b =
      ap (λ (t : ℕ). t * 2 + op (suc a % 2) (b % 2))
        (same_digits a (suc a / 2) (suc a / 2) (b / 2) (omega arith) (omega arith))

-- The lowest digit.
bit_and_low : (a b : ℕ) → bit_and a b ≡ bit_and (a / 2) (b / 2) * 2 + min (a % 2) (b % 2)
bit_and_low zero b = simp bit_and-bitwise (omega arith)
bit_and_low (suc a) b = simp bit_and-bitwise (bitwise_low (λ _. 0) min a b)

bit_or_low : (a b : ℕ) → bit_or a b ≡ bit_or (a / 2) (b / 2) * 2 + max (a % 2) (b % 2)
bit_or_low zero b = simp bit_or-bitwise (omega arith)
bit_or_low (suc a) b = simp bit_or-bitwise (bitwise_low (λ y. y) max a b)

bit_or-zero_upto : (n a : ℕ) → a ≤ n → bit_or a 0 ≡ a
bit_or-zero_upto n zero h = bit_or-bitwise 0 0
bit_or-zero_upto zero (suc a) h = absurd (omega arith)
bit_or-zero_upto (suc n) (suc a) h =
    omega (arith, bit_or_low (suc a) 0, bit_or-zero_upto n (suc a / 2) (omega arith))

bit_and-zero_upto : (n a : ℕ) → a ≤ n → bit_and a 0 ≡ 0
bit_and-zero_upto n zero h = bit_and-bitwise 0 0
bit_and-zero_upto zero (suc a) h = absurd (omega arith)
bit_and-zero_upto (suc n) (suc a) h =
    omega (arith, bit_and_low (suc a) 0, bit_and-zero_upto n (suc a / 2) (omega arith))

-- Two fields that do not overlap: `(q << k) | r` is a sum.
pub bit_or-add : (k q r : ℕ) → r < 2 ^ k → bit_or (q * 2 ^ k) r ≡ q * 2 ^ k + r
bit_or-add zero q r h = ground (arith, bit_or-zero_upto q q)
bit_or-add (suc k) q r h =
    let double : q * 2 ^ suc k ≡ q * 2 ^ k * 2 =
      omega (arith, ap (λ (t : ℕ). q * t) (pow-suc 2 k)) in
    let fits : r / 2 < 2 ^ k = omega (arith, pow-suc 2 k) in
    ground (arith, bit_or_low (q * 2 ^ suc k) r, bit_or-add k q (r / 2) fits)

-- A mask of low bits is a remainder: one more bit, and the masks of the program.
bit_and_odd : (a m : ℕ) → bit_and a (m * 2 + 1) ≡ bit_and (a / 2) m * 2 + a % 2
bit_and_odd a m =
    let half : (m * 2 + 1) / 2 ≡ m = omega arith in
    bit_and_low a (m * 2 + 1) ∙ rw half (omega arith)

bit_and_01 : (a : ℕ) → bit_and a 0x01 ≡ a % 2
bit_and_01 a = omega (arith, bit_and_odd a 0, bit_and-zero_upto (a / 2) (a / 2) (omega arith))

bit_and_03 : (a : ℕ) → bit_and a 0x03 ≡ a % 4
bit_and_03 a = omega (arith, bit_and_odd a 1, bit_and_01 (a / 2))

pub bit_and_07 : (a : ℕ) → bit_and a 0x07 ≡ a % 8
bit_and_07 a = omega (arith, bit_and_odd a 3, bit_and_03 (a / 2))

pub bit_and_0f : (a : ℕ) → bit_and a 0x0F ≡ a % 16
bit_and_0f a = omega (arith, bit_and_odd a 7, bit_and_07 (a / 2))

pub bit_and_1f : (a : ℕ) → bit_and a 0x1F ≡ a % 32
bit_and_1f a = omega (arith, bit_and_odd a 15, bit_and_0f (a / 2))

pub bit_and_3f : (a : ℕ) → bit_and a 0x3F ≡ a % 64
bit_and_3f a = omega (arith, bit_and_odd a 31, bit_and_1f (a / 2))

half_div : (a p : ℕ) → a / (p * 2) ≡ a / 2 / p
half_div a p = let double : p * 2 ≡ 2 * p = omega arith in rw (double, div-div-eq-div-mul a 2 p)

-- The same law at every width, and for a mask that leaves out low bits.
pub bit_and_ones : (k a : ℕ) → bit_and a (2 ^ k - 1) ≡ a % 2 ^ k
bit_and_ones zero a = ground (arith, bit_and-zero_upto a a)
bit_and_ones (suc k) a =
    let p = 2 ^ k in
    let pos : 1 ≤ p = one-le-pow k 2 (omega arith) in
    let odd : p * 2 - 1 ≡ (p - 1) * 2 + 1 = omega arith in
    rw pow-suc (
      rw (odd, bit_and_odd a (p - 1), bit_and_ones k (a / 2))
        (omega (
          arith,
          mod-eq-sub-mul-div a (p * 2),
          mod-eq-sub-mul-div (a / 2) p,
          half_div a p,
          mul-div-le (a / 2) p,
          ap (λ (t : ℕ). p * t) (half_div a p),
        )))

pub bit_and_shifted : (k a m : ℕ) → bit_and a (m * 2 ^ k) ≡ bit_and (a / 2 ^ k) m * 2 ^ k
bit_and_shifted zero a m = ground arith
bit_and_shifted (suc k) a m =
    let p = 2 ^ k in
    let half : m * (p * 2) / 2 ≡ m * p = omega arith in
    let even : m * (p * 2) % 2 ≡ 0 = omega arith in
    rw pow-suc (
      rw (bit_and_low a (m * (p * 2)), half, even, bit_and_shifted k (a / 2) m, half_div a p)
        (omega arith))

differ_digits : (x y : ℕ) → x < 2 → y < 2 → differ x y ≡ (x + y) % 2
differ_digits zero y hx hy = omega arith
differ_digits (suc zero) zero hx hy = refl
differ_digits (suc zero) (suc zero) hx hy = refl
differ_digits (suc zero) (suc (suc y)) hx hy = absurd (omega arith)
differ_digits (suc (suc x)) y hx hy = absurd (omega arith)

bit_xor_low : (a b : ℕ) → bit_xor a b ≡ bit_xor (a / 2) (b / 2) * 2 + (a % 2 + b % 2) % 2
bit_xor_low zero b = simp bit_xor-bitwise (omega arith)
bit_xor_low (suc a) b = simp bit_xor-bitwise (
    bitwise_low (λ y. y) differ a b
    ∙ ap (λ (t : ℕ). bitwise (λ y. y) differ (suc a / 2) (b / 2) * 2 + t)
        (differ_digits (suc a % 2) (b % 2) (omega arith) (omega arith)))

-- An argument can be told from the result and the other one.
bit_xor-cancel_upto : (n a b c : ℕ) → b ≤ n → c ≤ n → bit_xor a b ≡ bit_xor a c → b ≡ c
bit_xor-cancel_upto zero a b c hb hc e = omega arith
bit_xor-cancel_upto (suc n) a b c hb hc e =
    let ih = bit_xor-cancel_upto n (a / 2) (b / 2) (c / 2) in
    let low_b = bit_xor_low a b in
    let low_c = bit_xor_low a c in
    let top : b / 2 ≡ c / 2 = ih (omega arith) (omega arith) (omega arith) in omega arith

pub bit_xor-cancel : (a b c : ℕ) → bit_xor a b ≡ bit_xor a c → b ≡ c
bit_xor-cancel a b c e = bit_xor-cancel_upto (b + c) a b c (omega arith) (omega arith) e

bit_xor_comm_upto : (n a b : ℕ) → a ≤ n → b ≤ n → bit_xor a b ≡ bit_xor b a
bit_xor_comm_upto zero a b ha hb = let e : a ≡ b = omega arith in rw e refl
bit_xor_comm_upto (suc n) a b ha hb = omega (
  arith,
  bit_xor_low a b,
  bit_xor_low b a,
  bit_xor_comm_upto n (a / 2) (b / 2) (omega arith) (omega arith),
)

pub bit_xor_comm : (a b : ℕ) → bit_xor a b ≡ bit_xor b a
bit_xor_comm a b = bit_xor_comm_upto (a + b) a b (omega arith) (omega arith)

-- A result is no wider than both arguments.
pub bit_xor-small : (k a b : ℕ) → a < 2 ^ k → b < 2 ^ k → bit_xor a b < 2 ^ k
bit_xor-small zero a b ha hb =
    let ea : a ≡ 0 = omega arith in let eb : b ≡ 0 = omega arith in rw (ea, eb) (omega arith)
bit_xor-small (suc k) a b ha hb =
    let p = pow-suc 2 k in
    omega (
      arith,
      p,
      bit_xor_low a b,
      bit_xor-small k (a / 2) (b / 2) (omega (arith, p)) (omega (arith, p)),
    )
