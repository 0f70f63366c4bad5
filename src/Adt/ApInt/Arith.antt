-- ===== src/Adt/ApInt/Arith.antt =====
-- Addition and subtraction of `APInt` are arithmetic modulo the width's power of two.
use block_type.Prelude.{
  ℕ, zero, suc, ◌+◌, ◌-◌, ◌*◌, ◌/◌, ◌%◌, ◌^◌, ◌≤◌, ◌<◌, ◌≡◌, ◌≢◌, ◌⊎◌, inl, inr, refl, sym, ap, ◌∙◌,
  List, [], ◌∷◌, arith, length,
}
use native.Mathlib.Nat.{mul_assoc, add-mul-mod_self_left, add-mod_right}
use block_type.Adt.ApInt.{word_mod, ApInt, num_words_for, head, tail}
use block_type.Adt.ApInt.Ops.{
  sum_word, carry_out, add_words, add, diff_word, borrow_out, sub_words, sub,
}
use block_type.Adt.ApInt.Value.{
  num_words_for-IsNarrow, value, AreWords, span, pow-add, span-pow, IsNormal,
}
use block_type.Adt.ApInt.Mask.{IsCut, clear-IsCut, pow_pos}

sum_word-carry :
    (a b c : ℕ)
    → a < word_mod
    → b < word_mod
    → c ≤ 1
    → (sum_word a b c + word_mod * carry_out a b c ≡ a + b + c) × (carry_out a b c ≤ 1)
unfolding sum_word carry_out
sum_word-carry a b c ha hb hc = ground arith

diff_word-borrow :
    (a b c : ℕ)
    → a < word_mod
    → b < word_mod
    → c ≤ 1
    → (diff_word a b c + b + c ≡ a + word_mod * borrow_out a b c) × (borrow_out a b c ≤ 1)
unfolding diff_word borrow_out
diff_word-borrow a b c ha hb hc = ground arith

add_words-AreWords : (c : ℕ) (xs ys : List ℕ) → AreWords (add_words c xs ys)
unfolding add_words sum_word
add_words-AreWords c [] ys = tt
add_words-AreWords c (x ∷ xs) ys =
    (omega arith, add_words-AreWords (carry_out x (head ys) c) xs (tail ys))

sub_words-AreWords : (c : ℕ) (xs ys : List ℕ) → AreWords (sub_words c xs ys)
unfolding sub_words diff_word
sub_words-AreWords c [] ys = tt
sub_words-AreWords c (x ∷ xs) ys =
    (omega arith, sub_words-AreWords (borrow_out x (head ys) c) xs (tail ys))

length-add_words : (c : ℕ) (xs ys : List ℕ) → length (add_words c xs ys) ≡ length xs
unfolding add_words
length-add_words c [] ys = refl
length-add_words c (x ∷ xs) ys = ap suc (length-add_words (carry_out x (head ys) c) xs (tail ys))

length-sub_words : (c : ℕ) (xs ys : List ℕ) → length (sub_words c xs ys) ≡ length xs
unfolding sub_words
length-sub_words c [] ys = refl
length-sub_words c (x ∷ xs) ys = ap suc (length-sub_words (borrow_out x (head ys) c) xs (tail ys))

-- The words of the sum, and the carry out of the last.
add_words-value :
    (c : ℕ) (xs ys : List ℕ)
    → AreWords xs
    → AreWords ys
    → length xs ≡ length ys
    → c ≤ 1
    → (q : ℕ) × (value (add_words c xs ys) + span (length xs) * q ≡ value xs + value ys + c)
unfolding value span add_words
add_words-value c [] [] hx hy e hc = (c, omega arith)
add_words-value c [] (y ∷ ys) hx hy e hc = absurd (omega arith)
add_words-value c (x ∷ xs) [] hx hy e hc = absurd (omega arith)
add_words-value c (x ∷ xs) (y ∷ ys) hx hy e hc =
    let (s, small) = sum_word-carry x y c hx.0 hy.0 hc in
    let (q, rest) = add_words-value (carry_out x y c) xs ys hx.1 hy.1 (omega arith) small in
    (q, omega (arith, s, rest, mul_assoc word_mod (span (length xs)) q))

sub_words-value :
    (c : ℕ) (xs ys : List ℕ)
    → AreWords xs
    → AreWords ys
    → length xs ≡ length ys
    → c ≤ 1
    → (q : ℕ) × (q ≤ 1)
      × (value (sub_words c xs ys) + value ys + c ≡ value xs + span (length xs) * q)
unfolding value span sub_words
sub_words-value c [] [] hx hy e hc = (c, hc, omega arith)
sub_words-value c [] (y ∷ ys) hx hy e hc = absurd (omega arith)
sub_words-value c (x ∷ xs) [] hx hy e hc = absurd (omega arith)
sub_words-value c (x ∷ xs) (y ∷ ys) hx hy e hc =
    let (s, small) = diff_word-borrow x y c hx.0 hy.0 hc in
    let (q, bit, rest) = sub_words-value (borrow_out x y c) xs ys hx.1 hy.1 (omega arith) small in
    (q, bit, omega (arith, s, rest, mul_assoc word_mod (span (length xs)) q))

Nat_cases : (n : ℕ) → (n ≡ 0) ⊎ (n ≢ 0)
Nat_cases zero = inl refl
Nat_cases (suc n) = inr (λ e. omega arith)

pred_mul : (m c : ℕ) → 0 < c → m * c ≡ m + m * (c - 1)
pred_mul m zero h = absurd (omega arith)
pred_mul m (suc c) h = let e : suc c - 1 ≡ c = omega arith in rw e (grind arith)

-- The words hold a whole number of the width's ranges.
span-width :
    (x : ApInt) → IsNormal x → (c : ℕ) × (span (length x.words) ≡ 2 ^ x.bit_width * c) × (0 < c)
unfolding num_words_for
span-width x h =
    let bw = x.bit_width in
    let extra = 64 * length x.words - bw in
    let n : length x.words ≡ (bw + 63) / 64 = h.sized ∙ num_words_for-IsNarrow bw h.wide h.narrow in
    let e : 64 * length x.words ≡ bw + extra = omega arith in
    (
      2 ^ extra,
      span-pow (length x.words) ∙ ap (λ (t : ℕ). 2 ^ t) e ∙ pow-add bw extra,
      pow_pos extra,
    )

module _ (a b : ApInt) (ha : IsNormal a) (hb : IsNormal b) (same : a.bit_width ≡ b.bit_width) where
  same_length : length a.words ≡ length b.words
  same_length = ha.sized ∙ ap num_words_for same ∙ sym hb.sized

  add-IsCut : IsCut (record a { words = add_words 0 a.words b.words }) (add a b)
  unfolding add
  add-IsCut =
      clear-IsCut (record a { words = add_words 0 a.words b.words }) ha.wide ha.narrow
        (length-add_words 0 a.words b.words ∙ ha.sized) (add_words-AreWords 0 a.words b.words)

  sub-IsCut : IsCut (record a { words = sub_words 0 a.words b.words }) (sub a b)
  unfolding sub
  sub-IsCut =
      clear-IsCut (record a { words = sub_words 0 a.words b.words }) ha.wide ha.narrow
        (length-sub_words 0 a.words b.words ∙ ha.sized) (sub_words-AreWords 0 a.words b.words)

  sum :
      value (add_words 0 a.words b.words) % 2 ^ a.bit_width
      ≡ (value a.words + value b.words) % 2 ^ a.bit_width
  sum =
      let (q, e) =
        add_words-value 0 a.words b.words ha.bounded hb.bounded same_length (omega arith) in
      let (c, f, _) = span-width a ha in
      let m = 2 ^ a.bit_width in
      let s = value (add_words 0 a.words b.words) in
      let g : value a.words + value b.words ≡ s + m * (c * q) =
        omega (arith, e, mul_assoc m c q, ap (λ (t : ℕ). t * q) f) in
      sym (ap (λ (t : ℕ). t % m) g ∙ add-mul-mod_self_left s m (c * q))

  difference :
      value (sub_words 0 a.words b.words) % 2 ^ a.bit_width
      ≡ (value a.words + 2 ^ a.bit_width - value b.words) % 2 ^ a.bit_width
  difference =
      let (q, bit, e) =
        sub_words-value 0 a.words b.words ha.bounded hb.bounded same_length (omega arith) in
      let (c, f, pos) = span-width a ha in
      let m = 2 ^ a.bit_width in
      let s = value (sub_words 0 a.words b.words) in
      let below : value b.words < m = rw same hb.in_range in
      elim (Nat_cases q) [
        | inl z ↦
            let e' : s + m ≡ value a.words + m - value b.words =
              omega (arith, e, ap (λ (t : ℕ). span (length a.words) * t) z) in
            sym (ap (λ (t : ℕ). t % m) (sym e') ∙ add-mod_right s m)
        | inr nz ↦
            let one : q ≡ 1 = omega arith in
            let e' : s ≡ value a.words + m - value b.words + m * (c - 1) =
              omega
                (arith, e, f, ap (λ (t : ℕ). span (length a.words) * t) one, pred_mul m c pos) in
            ap (λ (t : ℕ). t % m) e'
            ∙ add-mul-mod_self_left (value a.words + m - value b.words) m (c - 1)
      ]

  -- For two numbers of one width below 2 ^ 32 - 63, both well formed (as many words as the width asks
  -- for, no bit above the width), the sum and the difference are well formed and of that width; the sum is the sum of
  -- the numbers modulo 2 ^ width, and the difference is theirs modulo 2 ^ width.
  pub add-sub-value :
      IsNormal (add a b)
      × ((add a b).bit_width ≡ a.bit_width)
      × (value (add a b).words ≡ (value a.words + value b.words) % 2 ^ a.bit_width)
      × IsNormal (sub a b)
      × ((sub a b).bit_width ≡ a.bit_width)
      × (value (sub a b).words
          ≡ (value a.words + 2 ^ a.bit_width - value b.words) % 2 ^ a.bit_width)
  add-sub-value =
      let s = add-IsCut in
      let d = sub-IsCut in
      (s.normal, s.same_width, s.cut ∙ sum, d.normal, d.same_width, d.cut ∙ difference)
