-- ===== src/Adt/ApInt/Mask.antt =====
-- `clearUnusedBits` of `APInt` takes the number modulo the width's power of two.
use block_type.Prelude.{
  ℕ, zero, suc, ◌+◌, ◌-◌, ◌*◌, ◌/◌, ◌%◌, ◌^◌, ◌<◌, ◌≡◌, ◌≢◌, inl, inr, refl, sym, ap, ◌∙◌, List, [],
  ◌∷◌, arith, length, ◌==◌, ==_iff, Bool-cases, false, subst,
}
use native.Mathlib.Nat.{mod-eq_of_lt, mod-lt, div-add-mod, mul_assoc, mul-pos, mod-le, pow-suc}
use block_type.Prelude.Bits.{bit_and_ones}
use block_type.Adt.ApInt.{word_mod, ApInt, num_words_for, mask_last, clear_unused_bits}
use block_type.Adt.ApInt.Value.{
  num_words_for-IsNarrow, IsNarrow, value, AreWords, span, span_pos, value-lt-span, pow-add,
  span-pow, IsNormal, mod_unique,
}

-- A word below a number modulo `m`.
pub mod-below :
    (w v m : ℕ)
    → w < word_mod
    → 0 < m
    → (w + word_mod * v) % (word_mod * m) ≡ w + word_mod * (v % m)
mod-below w v m h pos =
    mod_unique (w + word_mod * v) (word_mod * m) (v / m) (w + word_mod * (v % m))
      (let e : m * (v / m) + v % m ≡ v = div-add-mod v m in
        let f : word_mod * m * (v / m) ≡ word_mod * (m * (v / m)) = mul_assoc word_mod m (v / m) in
        omega arith)
      (omega (arith, mod-lt v pos))

pub pow_pos : (k : ℕ) → 0 < 2 ^ k
pow_pos zero = omega arith
pow_pos (suc k) = rw (pow-suc 2 k) (omega (arith, pow_pos k))

mask_last-value :
    (k w : ℕ) (ws : List ℕ)
    → AreWords (w ∷ ws)
    → value (mask_last (2 ^ k - 1) (w ∷ ws)) ≡ value (w ∷ ws) % (span (length ws) * 2 ^ k)
unfolding value mask_last span
mask_last-value k w [] h =
    let e : 1 * 2 ^ k ≡ 2 ^ k = omega arith in
    let f : w + 0 ≡ w = omega arith in rw (e, f, bit_and_ones k w) (omega arith)
mask_last-value k w (v ∷ ws) (h, hs) =
    let m = span (length ws) * 2 ^ k in
    let pos : 0 < m = mul-pos (span_pos (length ws)) (pow_pos k) in
    ap (λ (t : ℕ). w + word_mod * t) (mask_last-value k v ws hs)
    ∙ sym (mod-below w (value (v ∷ ws)) m h pos)
    ∙ ap (λ (t : ℕ). value (w ∷ v ∷ ws) % t) (sym (mul_assoc word_mod (span (length ws)) (2 ^ k)))

mask_last-AreWords : (k : ℕ) (ws : List ℕ) → AreWords ws → AreWords (mask_last (2 ^ k - 1) ws)
unfolding mask_last
mask_last-AreWords k [] h = h
mask_last-AreWords k (w ∷ []) h = (rw (bit_and_ones k w) (omega (arith, h.0, mod-le w (2 ^ k))), tt)
mask_last-AreWords k (w ∷ v ∷ ws) h = (h.0, mask_last-AreWords k (v ∷ ws) h.1)

length-mask_last : (mask : ℕ) (ws : List ℕ) → length (mask_last mask ws) ≡ length ws
unfolding mask_last
length-mask_last mask [] = refl
length-mask_last mask (w ∷ []) = refl
length-mask_last mask (w ∷ v ∷ ws) = ap suc (length-mask_last mask (v ∷ ws))

-- The number is cut to the width.
pub record IsCut (x y : ApInt) : Type 0 where
  pub normal : IsNormal y
  pub same_width : y.bit_width ≡ x.bit_width
  pub cut : value y.words ≡ value x.words % 2 ^ x.bit_width

nonempty-value :
    (k : ℕ) (ws : List ℕ)
    → AreWords ws
    → 0 < length ws
    → value (mask_last (2 ^ k - 1) ws) ≡ value ws % (span (length ws - 1) * 2 ^ k)
nonempty-value k [] h pos = absurd (omega arith)
nonempty-value k (w ∷ ws) h pos =
    let e : length (w ∷ ws) - 1 ≡ length ws = omega arith in rw e (mask_last-value k w ws h)

pub clear-IsCut :
    (x : ApInt)
    → 0 < x.bit_width
    → IsNarrow x.bit_width
    → length x.words ≡ num_words_for x.bit_width
    → AreWords x.words
    → IsCut x (clear_unused_bits x)
unfolding clear_unused_bits num_words_for
clear-IsCut x wide narrow sized words =
    let bw = x.bit_width in
    let nonzero : (bw == 0) ≡ false = ground arith in
    let n : length x.words ≡ (bw + 63) / 64 = sized ∙ num_words_for-IsNarrow bw wide narrow in
    elim (Bool-cases (bw % 64 == 0)) [
      | inl whole ↦
          let w0 = (==_iff (bw % 64) 0).0 whole in
          let e : span (length x.words) ≡ 2 ^ bw =
            span-pow (length x.words) ∙ ap (λ (t : ℕ). 2 ^ t) (omega arith) in
          let lt : value x.words < 2 ^ bw =
            subst (λ t. value x.words < t) e (value-lt-span x.words words) in
          rw whole (record {
            normal = record {
              wide = wide;
              narrow = narrow;
              sized = sized;
              bounded = words;
              in_range = lt;
            };
            same_width = refl;
            cut = sym (mod-eq_of_lt lt);
          })
      | inr part ↦
          let top = bw % 64 in
          let nz : bw % 64 ≢ 0 = λ z. cc (part, (==_iff (bw % 64) 0).1 z) in
          let split : 64 * (length x.words - 1) + top ≡ bw = omega arith in
          let e : span (length x.words - 1) * 2 ^ top ≡ 2 ^ bw =
            ap (λ (t : ℕ). t * 2 ^ top) (span-pow (length x.words - 1))
            ∙ sym (pow-add (64 * (length x.words - 1)) top)
            ∙ ap (λ (t : ℕ). 2 ^ t) split in
          let c : value (mask_last (2 ^ top - 1) x.words) ≡ value x.words % 2 ^ bw =
            nonempty-value top x.words words (omega arith) ∙ ap (λ (t : ℕ). value x.words % t) e in
          rw part (record {
            normal = record {
              wide = wide;
              narrow = narrow;
              sized = length-mask_last (2 ^ top - 1) x.words ∙ sized;
              bounded = mask_last-AreWords top x.words words;
              in_range = subst (λ t. t < 2 ^ bw) (sym c) (mod-lt (value x.words) (pow_pos bw));
            };
            same_width = refl;
            cut = c;
          })
    ]
