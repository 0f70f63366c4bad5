-- ===== src/Adt/ApInt/Value.antt =====
-- The number that the words of an `APInt` stand for.
use block_type.Prelude.{
  ℕ, zero, suc, ◌+◌, ◌*◌, ◌/◌, ◌%◌, ◌^◌, ◌==◌, false, if◌then◌else◌, ◌<◌, ◌≡◌, refl, sym, ap, ◌∙◌,
  List, [], ◌∷◌, arith, length, All,
}
use native.Mathlib.Nat.{mod-eq_of_lt, pow-suc, mul-add-mod_self_left}
use block_type.Adt.ApInt.{word_mod, ApInt, num_words_for}

unfoldable pub value : List ℕ → ℕ
value [] = 0
value (w ∷ ws) = w + word_mod * value ws

-- Every word has 64 bits.
abbrev pub AreWords : List ℕ → Type 0
AreWords ws = All (λ w. w < word_mod) ws

-- 2 ^ (64 * n)
unfoldable pub span : ℕ → ℕ
span zero = 1
span (suc n) = word_mod * span n

pub span_pos : (n : ℕ) → 0 < span n
unfolding span
span_pos zero = omega arith
span_pos (suc n) = omega (arith, span_pos n)

pub value-lt-span : (ws : List ℕ) → AreWords ws → value ws < span (length ws)
unfolding value span
value-lt-span [] h = omega arith
value-lt-span (w ∷ ws) (h, hs) = omega (arith, value-lt-span ws hs)

pub pow-add : (m n : ℕ) → 2 ^ (m + n) ≡ 2 ^ m * 2 ^ n
pow-add zero n = let e : 0 + n ≡ n = omega arith in rw e (omega arith)
pow-add (suc m) n =
    let e : suc m + n ≡ suc (m + n) = omega arith in
    rw (e, pow-suc 2 (m + n), pow-suc 2 m, pow-add m n) (grind arith)

pub span-pow : (n : ℕ) → span n ≡ 2 ^ (64 * n)
unfolding span
span-pow zero = refl
span-pow (suc n) =
    let e : 64 * suc n ≡ 64 + 64 * n = omega arith in
    rw e (ap (λ (t : ℕ). word_mod * t) (span-pow n) ∙ sym (pow-add 64 (64 * n)))

-- A width that `getNumWords` rounds up without passing 32 bits.
abbrev pub IsNarrow : ℕ → Type 0
IsNarrow bw = bw + 63 < 2 ^ 32

pub num_words_for-IsNarrow : (bw : ℕ) → 0 < bw → IsNarrow bw → num_words_for bw ≡ (bw + 63) / 64
unfolding num_words_for
num_words_for-IsNarrow bw wide narrow =
    let nonzero : (bw == 0) ≡ false = ground arith in
    ap (λ b. ((if b then 1 else bw) + 63) % 2 ^ 32 / 64) nonzero
    ∙ ap (λ (t : ℕ). t / 64) (mod-eq_of_lt narrow)

-- A well-formed number: as many words as its width asks for, and no bit above the width.
pub record IsNormal (x : ApInt) : Type 0 where
  pub wide : 0 < x.bit_width
  pub narrow : IsNarrow x.bit_width
  pub sized : length x.words ≡ num_words_for x.bit_width
  pub bounded : AreWords x.words
  pub in_range : value x.words < 2 ^ x.bit_width

-- The remainder is the number below the modulus that differs from it by a multiple.
pub mod_unique : (n m q r : ℕ) → n ≡ m * q + r → r < m → n % m ≡ r
mod_unique n m q r e h = rw e (mul-add-mod_self_left m q r ∙ mod-eq_of_lt h)
