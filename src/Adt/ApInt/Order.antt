-- ===== src/Adt/ApInt/Order.antt =====
-- The comparisons of `APInt` compare the numbers, unsigned and signed.
use block_type.Prelude.{
  ℕ, zero, suc, ◌+◌, ◌-◌, ◌*◌, ◌/◌, ◌%◌, ◌^◌, ◌≤◌, ◌<◌, ◌≡◌, ◌↔◌, refl, sym, ap, ◌∙◌, List, [], ◌∷◌,
  arith, length, ◌==◌, if◌then◌else◌, true, subst, ltb, get_or, bit_and, dec_lt,
}
use block_type.Prelude.Int.{ℤ, pos, negsuc, ◌<ℤ◌}
use native.Mathlib.Nat.{
  mul_assoc, mul_comm, mul-le-mul_left, pow-suc, div-lt_iff_lt-mul, div-eq_of_lt, le-div_iff_mul-le,
}
use block_type.Adt.ApInt.{
  word_mod, ApInt, num_words_for, num_words, word, ugt_loop, ugt, sgt, is_negative, bit,
}
use block_type.Adt.ApInt.Value.{
  num_words_for-IsNarrow, value, AreWords, span, pow-add, span-pow, IsNormal,
}
use block_type.Adt.ApInt.Mask.{pow_pos}

mul_suc : (s t : ℕ) → s * suc t ≡ s + s * t
mul_suc s t = grind arith

one_more : (n : ℕ) → 0 < n → n ≡ suc (n - 1)
one_more n h = omega arith

regroup : (s t : ℕ) → s * t * 2 ≡ s * (2 * t)
regroup s t = grind arith

-- The number of the lowest `n` words.
below : ℕ → List ℕ → ℕ
below zero ws = 0
below (suc n) ws = below n ws + span n * get_or ws n 0

word-lt : (ws : List ℕ) (i : ℕ) → AreWords ws → get_or ws i 0 < word_mod
word-lt [] i h = omega arith
word-lt (w ∷ ws) zero h = h.0
word-lt (w ∷ ws) (suc i) h = word-lt ws i h.1

below-lt : (n : ℕ) (ws : List ℕ) → AreWords ws → below n ws < span n
unfolding below span
below-lt zero ws h = omega arith
below-lt (suc n) ws h =
    let up : span n * suc (get_or ws n 0) ≤ span n * word_mod =
      mul-le-mul_left (span n) (word-lt ws n h) in
    omega (arith, below-lt n ws h, up, mul_comm word_mod (span n), mul_suc (span n) (get_or ws n 0))

below-cons : (n w : ℕ) (ws : List ℕ) → below (suc n) (w ∷ ws) ≡ w + word_mod * below n ws
unfolding below span
below-cons zero w ws = omega arith
below-cons (suc n) w ws =
    omega (arith, below-cons n w ws, mul_assoc word_mod (span n) (get_or ws n 0))

below-value : (ws : List ℕ) → below (length ws) ws ≡ value ws
unfolding value
below-value [] = unfold below in refl
below-value (w ∷ ws) =
    below-cons (length ws) w ws ∙ ap (λ (t : ℕ). w + word_mod * t) (below-value ws)

-- The higher digit decides.
digits-lt : (p q s x y : ℕ) → q < s → y < x → q + s * y < p + s * x
digits-lt p q s x y h lt =
    let up : s * suc y ≤ s * x = mul-le-mul_left s lt in omega (arith, up, mul_suc s y)

ugt_loop-below :
    (n : ℕ) (a b : ApInt)
    → AreWords a.words
    → AreWords b.words
    → (ugt_loop n a b ≡ true) ↔ (below n b.words < below n a.words)
unfolding ugt_loop below word
ugt_loop-below zero a b ha hb = ground arith
ugt_loop-below (suc n) a b ha hb =
    let x = get_or a.words n 0 in
    let y = get_or b.words n 0 in
    let p = below n a.words in
    let q = below n b.words in
    elim (dec_lt y x) [
      | yes up ↦
          let win : q + span n * y < p + span n * x =
            digits-lt p q (span n) x y (below-lt n b.words hb) up in
          ground arith
      | no up ↦ elim (dec_lt x y) [
        | yes down ↦
            let lose : p + span n * x < q + span n * y =
              digits-lt q p (span n) y x (below-lt n a.words ha) down in
            ground arith
        | no down ↦
            let same : x ≡ y = omega arith in
            let same' : span n * x ≡ span n * y = ap (λ (t : ℕ). span n * t) same in
            ground (arith, ugt_loop-below n a b ha hb)
      ]
    ]

top_word :
    (n : ℕ) (x : ApInt)
    → IsNormal x
    → length x.words ≡ suc n
    → value x.words ≡ below n x.words + span n * get_or x.words n 0
unfolding below
top_word n x h e = sym (below-value x.words) ∙ ap (λ (t : ℕ). below t x.words) e

sign_digit :
    (p s t h : ℕ)
    → p < s
    → 0 < h
    → p + s * t < s * (2 * h)
    → ((bit_and (t / h) 1 == 1) ≡ true) ↔ (s * h ≤ p + s * t)
sign_digit p s t h low positive lt = elim (dec_lt t h) [
  | yes small ↦
      let z : t / h ≡ 0 = div-eq_of_lt small in
      let under : p + s * t < 0 + s * h = digits-lt 0 p s h t low small in
      rw z (λ bad. absurd (cc bad), λ over. absurd (omega arith))
  | no large ↦
      let over : s * h ≤ s * t = mul-le-mul_left s (omega arith) in
      elim (dec_lt t (2 * h)) [
        | yes less ↦
            let one : t / h ≡ 1 = omega (
              arith,
              (le-div_iff_mul-le {k = h} {x = 1} {y = t} positive).1 (omega arith),
              (div-lt_iff_lt-mul {k = h} {x = t} {y = 2} positive).1 (omega arith),
            ) in
            rw one (λ _. omega arith, λ _. refl)
        | no more ↦
            let all : s * (2 * h) ≤ s * t = mul-le-mul_left s (omega arith) in absurd (omega arith)
      ]
]

-- The sign bit.
is_negative-value :
    (x : ApInt) → IsNormal x → (is_negative x ≡ true) ↔ (2 ^ (x.bit_width - 1) ≤ value x.words)
unfolding is_negative bit num_words_for word
is_negative-value x h =
    let bw = x.bit_width in
    let size : length x.words ≡ (bw + 63) / 64 =
      h.sized ∙ num_words_for-IsNarrow bw h.wide h.narrow in
    let wide = h.wide in
    let n = (bw - 1) / 64 in
    let r = (bw - 1) % 64 in
    let t = get_or x.words n 0 in
    let v : value x.words ≡ below n x.words + span n * t = top_word n x h (omega arith) in
    let low = below-lt n x.words h.bounded in
    let half : 2 ^ (bw - 1) ≡ span n * 2 ^ r =
      ap (λ (k : ℕ). 2 ^ k) (omega arith)
      ∙ pow-add (64 * n) r
      ∙ ap (λ (k : ℕ). k * 2 ^ r) (sym (span-pow n)) in
    let full : 2 ^ bw ≡ span n * (2 * 2 ^ r) =
      ap (λ (k : ℕ). 2 ^ k) (one_more bw wide)
      ∙ pow-suc 2 (bw - 1)
      ∙ ap (λ (k : ℕ). k * 2) half
      ∙ regroup (span n) (2 ^ r) in
    let d =
      sign_digit (below n x.words) (span n) t (2 ^ r) low (pow_pos r) (
        subst (λ m. below n x.words + span n * t < m) full
          (subst (λ m. m < 2 ^ bw) v h.in_range)) in
    (
      λ e.
          subst (λ m. m ≤ value x.words) (sym half)
            (subst (λ m. span n * 2 ^ r ≤ m) (sym v) (d.0 (ground arith))),
      λ e.
          let f = d.1 (subst (λ m. span n * 2 ^ r ≤ m) v (subst (λ m. m ≤ value x.words) half e)) in
          ground arith,
    )

-- The integer that the number stands for in two's complement.
abbrev pub signed : ApInt → ℤ
signed x =
    if ltb (value x.words) (2 ^ (x.bit_width - 1))
    then pos (value x.words)
    else negsuc (2 ^ x.bit_width - value x.words - 1)

ugt_iff :
    (a b : ApInt)
    → IsNormal a
    → IsNormal b
    → a.bit_width ≡ b.bit_width
    → (ugt a b ≡ true) ↔ (value b.words < value a.words)
unfolding ugt num_words
ugt_iff a b ha hb same =
    let e : below (length a.words) b.words ≡ value b.words =
      ap (λ (n : ℕ). below n b.words) (ha.sized ∙ ap num_words_for same ∙ sym hb.sized)
      ∙ below-value b.words in
    let d = ugt_loop-below (length a.words) a b ha.bounded hb.bounded in
    omega_iff e (below-value a.words) d
  where
    omega_iff : {x y x' y' : ℕ} {P : Type 0} → y ≡ y' → x ≡ x' → P ↔ (y < x) → P ↔ (y' < x')
    omega_iff e f (g, h) = (λ p. rw (← e) (rw (← f) (g p)), λ l. h (rw e (rw f l)))

sgt_iff :
    (a b : ApInt)
    → IsNormal a
    → IsNormal b
    → a.bit_width ≡ b.bit_width
    → (sgt a b ≡ true) ↔ (signed b <ℤ signed a)
unfolding sgt
sgt_iff a b ha hb same =
    let p = 2 ^ (a.bit_width - 1) in
    let wa : 2 ^ a.bit_width ≡ p * 2 =
      ap (λ (k : ℕ). 2 ^ k) (one_more a.bit_width ha.wide) ∙ pow-suc 2 (a.bit_width - 1) in
    let wb : 2 ^ b.bit_width ≡ p * 2 = ap (λ (k : ℕ). 2 ^ k) (sym same) ∙ wa in
    let pb : 2 ^ (b.bit_width - 1) ≡ p = ap (λ (k : ℕ). 2 ^ (k - 1)) (sym same) in
    let ra = ha.in_range in
    let rb = hb.in_range in
    ground (arith, ugt_iff a b ha hb same, is_negative-value a ha, is_negative-value b hb)

-- For two well-formed numbers of one width, `ugt` answers `true` exactly when the first is the larger
-- number, and `sgt` exactly when it is the larger integer in two's complement.
pub ugt-sgt_iff :
    (a b : ApInt)
    → IsNormal a
    → IsNormal b
    → a.bit_width ≡ b.bit_width
    → ((ugt a b ≡ true) ↔ (value b.words < value a.words))
      × ((sgt a b ≡ true) ↔ (signed b <ℤ signed a))
ugt-sgt_iff a b ha hb same = (ugt_iff a b ha hb same, sgt_iff a b ha hb same)
