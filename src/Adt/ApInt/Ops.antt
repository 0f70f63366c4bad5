-- ===== src/Adt/ApInt/Ops.antt =====
-- The sum, the difference, the product and the bitwise operations of `APInt`.
use block_type.Prelude.{
  ℕ, ◌+◌, ◌-◌, ◌*◌, ◌/◌, ◌%◌, false, not, ◌&&◌, ◌||◌, List, [], ◌∷◌, bit_and, bit_or, bit_xor, ◌==◌,
  ltb, if◌then◌else◌, replicate, map,
}
use block_type.Adt.ApInt.{
  word_mod, word_max, num_words, clear_unused_bits, of_word, head, tail, ApInt,
}

-- `A + B + Carry` and the carry out of it.
unfoldable pub sum_word : ℕ → ℕ → ℕ → ℕ
sum_word a b carry = (a + b + carry) % word_mod

unfoldable pub carry_out : ℕ → ℕ → ℕ → ℕ
carry_out a b carry =
    let sum = sum_word a b carry in if ltb sum a || not (carry == 0) && sum == a then 1 else 0

unfoldable pub add_words : ℕ → List ℕ → List ℕ → List ℕ
add_words carry [] ys = []
add_words carry (x ∷ xs) ys =
    sum_word x (head ys) carry ∷ add_words (carry_out x (head ys) carry) xs (tail ys)

unfoldable pub add : ApInt → ApInt → ApInt
add a b = clear_unused_bits (record a { words = add_words 0 a.words b.words })

unfoldable pub diff_word : ℕ → ℕ → ℕ → ℕ
diff_word a b borrow = (a + 2 * word_mod - b - borrow) % word_mod

unfoldable pub borrow_out : ℕ → ℕ → ℕ → ℕ
borrow_out a b borrow = if ltb a b || not (borrow == 0) && a == b then 1 else 0

unfoldable pub sub_words : ℕ → List ℕ → List ℕ → List ℕ
sub_words borrow [] ys = []
sub_words borrow (x ∷ xs) ys =
    diff_word x (head ys) borrow ∷ sub_words (borrow_out x (head ys) borrow) xs (tail ys)

unfoldable pub sub : ApInt → ApInt → ApInt
sub a b = clear_unused_bits (record a { words = sub_words 0 a.words b.words })

-- The unary `operator-`
unfoldable pub negate : ApInt → ApInt
negate x = sub (of_word x.bit_width 0 false) x

-- One step of the inner loop of `operator*`: the product of two words, the word of the result and the
-- carry give the new word and the new carry.
unfoldable pub mul_low : ℕ → ℕ → ℕ → ℕ → ℕ
mul_low a b result carry = (a * b + result + carry) % word_mod

unfoldable pub mul_carry : ℕ → ℕ → ℕ → ℕ → ℕ
mul_carry a b result carry =
    (a * b / word_mod + (if ltb (mul_low a b result carry) (a * b % word_mod) then 1 else 0))
    % word_mod

-- The inner loop, over the words of the result from `K` on and those of the second operand.
unfoldable pub mul_row : ℕ → ℕ → List ℕ → List ℕ → List ℕ
mul_row a carry ys [] = []
mul_row a carry [] (r ∷ rs) = r ∷ rs
mul_row a carry (y ∷ ys) (r ∷ rs) = mul_low a y r carry ∷ mul_row a (mul_carry a y r carry) ys rs

-- The outer loop; the words below `K` are final.
unfoldable pub mul_words : List ℕ → List ℕ → List ℕ → List ℕ
mul_words [] ys result = result
mul_words (x ∷ xs) ys [] = []
mul_words (x ∷ xs) ys result =
    let row = mul_row x 0 ys result in head row ∷ mul_words xs ys (tail row)

unfoldable pub mul : ApInt → ApInt → ApInt
mul a b =
    clear_unused_bits (record a { words = mul_words a.words b.words (replicate (num_words a) 0) })

unfoldable pub zip_words : (ℕ → ℕ → ℕ) → List ℕ → List ℕ → List ℕ
zip_words f [] ys = []
zip_words f (x ∷ xs) ys = f x (head ys) ∷ zip_words f xs (tail ys)

unfoldable pub bitwise_and : ApInt → ApInt → ApInt
bitwise_and a b = record a { words = zip_words bit_and a.words b.words }

unfoldable pub bitwise_or : ApInt → ApInt → ApInt
bitwise_or a b = record a { words = zip_words bit_or a.words b.words }

unfoldable pub bitwise_xor : ApInt → ApInt → ApInt
bitwise_xor a b = record a { words = zip_words bit_xor a.words b.words }

-- `operator~`
unfoldable pub bitwise_not : ApInt → ApInt
bitwise_not x = clear_unused_bits (record x { words = map (λ w. word_max - w) x.words })
