-- ===== src/Adt/ApInt/Widths.antt =====
-- `trunc` and `zext` of `APInt`, and the way back.
use block_type.Prelude.{
  ℕ, zero, suc, ◌+◌, ◌-◌, ◌*◌, ◌/◌, ◌%◌, ◌^◌, ◌≤◌, ◌<◌, ◌≡◌, inl, inr, refl, sym, ap, ◌∙◌, List, [],
  ◌∷◌, arith, length, ◌==◌, ==_iff, Bool-cases, false, subst, get_or, dec_lt,
}
use native.Mathlib.Nat.{
  mod-eq_of_lt, mul_assoc, div-add-mod, add-mul-mod_self_left, pow-le-pow_right,
  le-mul_of_pos_right,
}
use block_type.Adt.ApInt.{
  word_mod, ApInt, num_words_for, copy_words, trunc, zext, zext_or_trunc, get_z_ext_value, word,
}
use block_type.Adt.ApInt.Value.{
  value, AreWords, span, span_pos, pow-add, span-pow, IsNarrow, IsNormal,
}
use block_type.Adt.ApInt.Mask.{IsCut, clear-IsCut, pow_pos, mod-below}

copy_words-value : (n : ℕ) (ws : List ℕ) → AreWords ws → value (copy_words n ws) ≡ value ws % span n
unfolding value span copy_words
copy_words-value zero ws h = omega arith
copy_words-value (suc n) [] h =
    let e : 0 % span n ≡ 0 = mod-eq_of_lt (span_pos n) in
    let f : 0 % (word_mod * span n) ≡ 0 = mod-eq_of_lt (omega (arith, span_pos n)) in
    omega (arith, copy_words-value n [] tt, e, f)
copy_words-value (suc n) (w ∷ ws) (h, hs) =
    ap (λ (t : ℕ). w + word_mod * t) (copy_words-value n ws hs)
    ∙ sym (mod-below w (value ws) (span n) h (span_pos n))

copy_words-AreWords : (n : ℕ) (ws : List ℕ) → AreWords ws → AreWords (copy_words n ws)
unfolding copy_words
copy_words-AreWords zero ws h = tt
copy_words-AreWords (suc n) [] h = (omega arith, copy_words-AreWords n [] tt)
copy_words-AreWords (suc n) (w ∷ ws) (h, hs) = (h, copy_words-AreWords n ws hs)

length-copy_words : (n : ℕ) (ws : List ℕ) → length (copy_words n ws) ≡ n
unfolding copy_words
length-copy_words zero ws = refl
length-copy_words (suc n) [] = ap suc (length-copy_words n [])
length-copy_words (suc n) (w ∷ ws) = ap suc (length-copy_words n ws)

-- A width fits in its words.
width-fits : (bw : ℕ) → IsNarrow bw → (c : ℕ) × (span (num_words_for bw) ≡ 2 ^ bw * c) × (0 < c)
unfolding num_words_for
width-fits bw narrow =
    let n = num_words_for bw in
    let fits : bw ≤ 64 * n = ground arith in
    let e : 64 * n ≡ bw + (64 * n - bw) = omega arith in
    (
      2 ^ (64 * n - bw),
      span-pow n ∙ ap (λ (t : ℕ). 2 ^ t) e ∙ pow-add bw (64 * n - bw),
      pow_pos (64 * n - bw),
    )

span-mod : (bw v : ℕ) → IsNarrow bw → v % span (num_words_for bw) % 2 ^ bw ≡ v % 2 ^ bw
span-mod bw v narrow =
    let (c, e, _) = width-fits bw narrow in
    let s = span (num_words_for bw) in
    let m = 2 ^ bw in
    let f : v ≡ v % s + m * (c * (v / s)) =
      omega (arith, div-add-mod v s, ap (λ (t : ℕ). t * (v / s)) e, mul_assoc m c (v / s)) in
    sym (ap (λ (t : ℕ). t % m) f ∙ add-mul-mod_self_left (v % s) m (c * (v / s)))

copied : ℕ → ApInt → ApInt
copied bw x = record { bit_width = bw; words = copy_words (num_words_for bw) x.words }

trunc-IsCut :
    (bw : ℕ) (x : ApInt) → IsNormal x → 0 < bw → IsNarrow bw → IsCut (copied bw x) (trunc bw x)
unfolding trunc copied
trunc-IsCut bw x h wide narrow =
    let nonzero : (bw == 0) ≡ false = ground arith in
    rw nonzero (
      clear-IsCut (copied bw x) wide narrow (length-copy_words (num_words_for bw) x.words)
        (copy_words-AreWords (num_words_for bw) x.words h.bounded))

-- The copy of a number that fits is the number.
copied-value :
    (bw : ℕ) (x : ApInt)
    → IsNormal x
    → x.bit_width ≤ bw
    → IsNarrow bw
    → IsNormal (copied bw x) × (value (copied bw x).words ≡ value x.words)
unfolding copied
copied-value bw x h le narrow =
    let (c, e, positive) = width-fits bw narrow in
    let up : 2 ^ x.bit_width ≤ 2 ^ bw = pow-le-pow_right {n = 2} (omega arith) le in
    let more : 2 ^ bw ≤ 2 ^ bw * c = le-mul_of_pos_right (2 ^ bw) positive in
    let n = num_words_for bw in
    let same : value (copy_words n x.words) ≡ value x.words =
      copy_words-value n x.words h.bounded ∙ mod-eq_of_lt (omega (arith, h.in_range)) in
    (
      record {
        wide = omega (arith, h.wide);
        narrow = narrow;
        sized = length-copy_words n x.words;
        bounded = copy_words-AreWords n x.words h.bounded;
        in_range = omega (arith, same, h.in_range);
      },
      same,
    )

copy_one : (ws : List ℕ) → copy_words 1 ws ≡ get_or ws 0 0 ∷ []
unfolding copy_words
copy_one [] = refl
copy_one (w ∷ ws) = refl

zext-copied : (bw : ℕ) (x : ApInt) → IsNormal x → x.bit_width < bw → zext bw x ≡ copied bw x
unfolding zext copied get_z_ext_value word
zext-copied bw x h lt =
    let positive = h.wide in
    elim (Bool-cases (num_words_for bw == 1)) [
      | inl one ↦
          let e : copy_words (num_words_for bw) x.words ≡ get_or x.words 0 0 ∷ [] =
            ap (λ (n : ℕ). copy_words n x.words) ((==_iff _ _).0 one) ∙ copy_one x.words in
          ground arith
      | inr more ↦ ground arith
    ]

-- `y` is well formed and has the width; its number is that of `x` modulo 2 ^ width, and so that of `x`
-- where the width is not smaller.
pub record IsResized (bw : ℕ) (x y : ApInt) : Type 0 where
  pub normal : IsNormal y
  pub resized : y.bit_width ≡ bw
  pub reduced : value y.words ≡ value x.words % 2 ^ bw
  pub kept : x.bit_width ≤ bw → value y.words ≡ value x.words

fits : (bw : ℕ) (x : ApInt) → IsNormal x → x.bit_width ≤ bw → value x.words < 2 ^ bw
fits bw x h le =
    let up : 2 ^ x.bit_width ≤ 2 ^ bw = pow-le-pow_right {n = 2} (omega arith) le in
    omega (arith, h.in_range)

-- A well-formed number brought to another width is well formed, of that width, and the number modulo
-- 2 ^ width: the number itself, where the width is not smaller. The new width is at least one bit and
-- below 2 ^ 32 - 63, from where on the number of words wraps.
pub zext_or_trunc-IsResized :
    (bw : ℕ) (x : ApInt) → IsNormal x → 0 < bw → IsNarrow bw → IsResized bw x (zext_or_trunc bw x)
unfolding zext_or_trunc
zext_or_trunc-IsResized bw x h wide narrow = elim (dec_lt x.bit_width bw) [
  | yes up ↦
      let c = copied-value bw x h (omega arith) narrow in
      let e : zext_or_trunc bw x ≡ copied bw x = ground (arith, zext-copied bw x h up) in
      subst (IsResized bw x) (sym e) (record {
        normal = c.0;
        resized = unfold copied in refl;
        reduced = c.1 ∙ sym (mod-eq_of_lt (fits bw x h (omega arith)));
        kept = λ _. c.1;
      })
  | no up ↦ elim (dec_lt bw x.bit_width) [
    | yes down ↦
        let c = trunc-IsCut bw x h wide narrow in
        let e : zext_or_trunc bw x ≡ trunc bw x = ground arith in
        subst (IsResized bw x) (sym e) (record {
          normal = c.normal;
          resized = unfold copied in c.same_width;
          reduced =
              unfold copied in
              (c.cut
                ∙ ap (λ (t : ℕ). t % 2 ^ bw) (copy_words-value (num_words_for bw) x.words h.bounded)
                ∙ span-mod bw (value x.words) narrow);
          kept = λ le. absurd (omega arith);
        })
    | no down ↦
        let e : zext_or_trunc bw x ≡ x = ground arith in
        subst (IsResized bw x) (sym e) (record {
          normal = h;
          resized = omega arith;
          reduced = sym (mod-eq_of_lt (fits bw x h (omega arith)));
          kept = λ _. refl;
        })
  ]
]
