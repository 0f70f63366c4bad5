-- ===== src/Adt/ApInt.antt =====
-- `APInt` of include/blocktype/IR/ADT/APInt.h: integers of a fixed width in words of 64 bits, the
-- lowest word first. `words` is `SingleWord` where there is one word, else `MultiWord`.
pub mod Ops
pub mod Value
pub mod Mask
pub mod Arith
pub mod Order
pub mod Widths
mod Examples
use block_type.Prelude.{
  ℕ, zero, suc, ◌+◌, ◌-◌, ◌*◌, ◌/◌, ◌%◌, ◌^◌, Bool, true, false, not, ◌&&◌, ◌||◌, List, [], ◌∷◌,
  bit_and, bit_or, bit_xor, ◌==◌, ltb, leb, if◌then◌else◌, length, get_or, set, replicate, drop,
  map,
}

abbrev pub word_mod : ℕ
word_mod = 2 ^ 64

-- `~uint64_t(0)`
abbrev pub word_max : ℕ
word_max = 2 ^ 64 - 1

pub record ApInt : Type 0 where
  pub bit_width : ℕ
  pub words : List ℕ

-- `getNumWords(BW ? BW : 1)`; the sum is `unsigned`.
unfoldable pub num_words_for : ℕ → ℕ
num_words_for bw = ((if bw == 0 then 1 else bw) + 63) % 2 ^ 32 / 64

unfoldable pub num_words : ApInt → ℕ
num_words x = length x.words

-- A word that is not there is 0.
unfoldable pub word : ApInt → ℕ → ℕ
word x i = get_or x.words i 0

unfoldable pub set_word : ℕ → ℕ → ApInt → ApInt
set_word i v x = record x { words = if num_words x == 1 then v ∷ [] else set x.words i v }

unfoldable pub mask_last : ℕ → List ℕ → List ℕ
mask_last mask [] = []
mask_last mask (w ∷ []) = bit_and w mask ∷ []
mask_last mask (w ∷ v ∷ ws) = w ∷ mask_last mask (v ∷ ws)

unfoldable pub clear_unused_bits : ApInt → ApInt
clear_unused_bits x =
    let top_bits = x.bit_width % 64 in
    if top_bits == 0 then x else record x { words = mask_last (2 ^ top_bits - 1) x.words }

-- `APInt(BW, Val, IsSigned)`
unfoldable pub of_word : ℕ → ℕ → Bool → ApInt
of_word bw val is_signed =
    if bw == 0
    then record { bit_width = 0; words = 0 ∷ [] }
    else let rest = num_words_for bw - 1 in
      let fill = if is_signed && leb (2 ^ 63) val then word_max else 0 in
      clear_unused_bits (record { bit_width = bw; words = val ∷ replicate rest fill })

-- The words that the constructor copies: at most `NumWords`, and zeros behind them.
unfoldable pub copy_words : ℕ → List ℕ → List ℕ
copy_words zero raw = []
copy_words (suc n) [] = 0 ∷ copy_words n []
copy_words (suc n) (w ∷ raw) = w ∷ copy_words n raw

-- `APInt(BW, RawWords, NumRaw)`
unfoldable pub of_words : ℕ → List ℕ → ApInt
of_words bw raw =
    clear_unused_bits (record { bit_width = bw; words = copy_words (num_words_for bw) raw })

unfoldable pub get_zero : ℕ → ApInt
get_zero bw = of_word bw 0 false

unfoldable pub get_one : ℕ → ApInt
get_one bw = of_word bw 1 false

unfoldable pub get_all_ones : ℕ → ApInt
get_all_ones bw = of_word bw word_max true

-- `(*this)[BitIdx]`
unfoldable pub bit : ApInt → ℕ → Bool
bit x i = bit_and (word x (i / 64) / 2 ^ (i % 64)) 1 == 1

unfoldable pub set_bit : ℕ → ApInt → ApInt
set_bit i x = set_word (i / 64) (bit_or (word x (i / 64)) (2 ^ (i % 64))) x

unfoldable pub clear_bit : ℕ → ApInt → ApInt
clear_bit i x = set_word (i / 64) (bit_and (word x (i / 64)) (word_max - 2 ^ (i % 64))) x

unfoldable pub get_signed_max_value : ℕ → ApInt
get_signed_max_value bw = clear_bit (bw - 1) (of_word bw word_max false)

unfoldable pub get_signed_min_value : ℕ → ApInt
get_signed_min_value bw = set_bit (bw - 1) (of_word bw 0 false)

unfoldable pub get_z_ext_value : ApInt → ℕ
get_z_ext_value x = if x.bit_width == 0 then 0 else word x 0

unfoldable pub all_zero : List ℕ → Bool
all_zero [] = true
all_zero (w ∷ ws) = w == 0 && all_zero ws

unfoldable pub is_zero : ApInt → Bool
is_zero x = all_zero x.words

unfoldable pub is_negative : ApInt → Bool
is_negative x = if x.bit_width == 0 then false else bit x (x.bit_width - 1)

unfoldable pub is_strictly_positive : ApInt → Bool
is_strictly_positive x = not (is_negative x) && not (is_zero x)

unfoldable pub trunc : ℕ → ApInt → ApInt
trunc bw x =
    if bw == 0
    then of_word 0 0 false
    else clear_unused_bits
        (record { bit_width = bw; words = copy_words (num_words_for bw) x.words })

unfoldable pub zext : ℕ → ApInt → ApInt
zext bw x =
    if bw == x.bit_width
    then x
    else if num_words_for bw == 1
    then record { bit_width = bw; words = get_z_ext_value x ∷ [] }
    else record { bit_width = bw; words = copy_words (num_words_for bw) x.words }

unfoldable pub zext_or_trunc : ℕ → ApInt → ApInt
zext_or_trunc bw x =
    if ltb x.bit_width bw then zext bw x else if ltb bw x.bit_width then trunc bw x else x

-- The loops below run over the words of the first operand, beside those of the second; a word that
-- is not there is 0.
abbrev pub head : List ℕ → ℕ
head ws = get_or ws 0 0

abbrev pub tail : List ℕ → List ℕ
tail ws = drop 1 ws

unfoldable pub equal_words : List ℕ → List ℕ → Bool
equal_words [] ys = true
equal_words (x ∷ xs) ys = x == head ys && equal_words xs (tail ys)

-- `operator==`
unfoldable pub eq : ApInt → ApInt → Bool
eq a b = equal_words a.words b.words

-- The loop of `ugt`, from the highest word down, with the words that are left.
unfoldable pub ugt_loop : ℕ → ApInt → ApInt → Bool
ugt_loop zero a b = false
ugt_loop (suc i) a b =
    let rest = ugt_loop i a b in
    if ltb (word b i) (word a i) then true else if ltb (word a i) (word b i) then false else rest

unfoldable pub ugt : ApInt → ApInt → Bool
ugt a b = ugt_loop (num_words a) a b

unfoldable pub uge : ApInt → ApInt → Bool
uge a b = not (ugt b a)

unfoldable pub ult : ApInt → ApInt → Bool
ult a b = ugt b a

unfoldable pub ule : ApInt → ApInt → Bool
ule a b = not (ugt a b)

unfoldable pub sgt : ApInt → ApInt → Bool
sgt a b =
    let a_neg = is_negative a in
    let b_neg = is_negative b in
    if a_neg && not b_neg then false else if not a_neg && b_neg then true else ugt a b

unfoldable pub sge : ApInt → ApInt → Bool
sge a b = not (sgt b a)

unfoldable pub slt : ApInt → ApInt → Bool
slt a b = sgt b a

unfoldable pub sle : ApInt → ApInt → Bool
sle a b = not (sgt a b)
