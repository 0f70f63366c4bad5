-- ===== src/Utf8.antt =====
-- src/Unicode/UTF8.cpp: the strict encoder and decoder. The text between `Ptr` and `End` is a list
-- of bytes, and an advanced pointer is the list that is left.
pub mod Bytes
pub mod Sequences
pub mod Encodings
pub mod RoundTrip
pub mod Canonical
mod Examples
use block_type.Prelude.{
  ℕ, zero, suc, ◌-◌, ◌%◌, Bool, true, false, ◌&&◌, ◌||◌, Option, none, some, List, [], ◌∷◌, bit_and,
  bit_or, ltb, leb, ◌==◌, if◌then◌else◌, length,
}
use block_type.Prelude.Bits.{shl32, shr}

-- The value that reports an error.
abbrev pub invalid : ℕ
invalid = 0xFFFFFFFF

-- What the first byte of a sequence says: its number of bytes, and its share of the code point.
pub lead : ℕ → Option (ℕ × ℕ)
lead b =
    if bit_and b 0xE0 == 0xC0
    then some (2, bit_and b 0x1F)
    else if bit_and b 0xF0 == 0xE0
    then some (3, bit_and b 0x0F)
    else if bit_and b 0xF8 == 0xF0
    then some (4, bit_and b 0x07)
    else none

-- The loop over the continuation bytes, with the rounds to go. `none` is the error; the pointer has
-- passed the byte that caused it. The empty list is ruled out before the loop.
pub continuation : ℕ → ℕ → List ℕ → Option ℕ × List ℕ
continuation zero cp p = (some cp, p)
continuation (suc n) cp [] = (none, [])
continuation (suc n) cp (b ∷ p) =
    let next = continuation n (bit_or (shl32 cp 6) (bit_and b 0x3F)) p in
    if bit_and b 0xC0 == 0x80 then next else (none, p)

-- The tests after the loop: overlong forms, the range of Unicode, surrogates.
pub accept : ℕ → ℕ → ℕ
accept n cp =
    if n == 2 && ltb cp 0x80
    then invalid
    else if n == 3 && ltb cp 0x800
    then invalid
    else if n == 4 && ltb cp 0x10000
    then invalid
    else if ltb 0x10FFFF cp
    then invalid
    else if leb 0xD800 cp && leb cp 0xDFFF
    then invalid
    else cp

pub finish : ℕ → Option ℕ × List ℕ → ℕ × List ℕ
finish n (none, p) = (invalid, p)
finish n (some cp, p) = (accept n cp, p)

pub decode_sequence : ℕ → List ℕ → ℕ × List ℕ
decode_sequence b p = elim (lead b) [
  | none ↦ (invalid, p)
  | some (n, cp) ↦
      if ltb (length p) (n - 1) then (invalid, p) else finish n (continuation (n - 1) cp p)
]

unfoldable pub decode_utf8 : List ℕ → ℕ × List ℕ
decode_utf8 [] = (invalid, [])
decode_utf8 (b ∷ p) =
    if ltb b 0x80
    then (b, p)
    else if bit_and b 0xC0 == 0x80
    then (invalid, p)
    else decode_sequence b p

-- `static_cast<char>`, as the unsigned value of the byte.
abbrev pub to_byte : ℕ → ℕ
to_byte x = x % 256

-- The bytes that `encodeUTF8` writes to its buffer; it returns their number.
unfoldable pub encode_utf8 : ℕ → List ℕ
encode_utf8 cp =
    if ltb cp 0x80
    then to_byte cp ∷ []
    else if ltb cp 0x800
    then to_byte (bit_or 0xC0 (shr cp 6)) ∷ to_byte (bit_or 0x80 (bit_and cp 0x3F)) ∷ []
    else if ltb cp 0x10000
    then to_byte (bit_or 0xE0 (shr cp 12))
      ∷ to_byte (bit_or 0x80 (bit_and (shr cp 6) 0x3F))
      ∷ to_byte (bit_or 0x80 (bit_and cp 0x3F))
      ∷ []
    else if ltb cp 0x110000
    then to_byte (bit_or 0xF0 (shr cp 18))
      ∷ to_byte (bit_or 0x80 (bit_and (shr cp 12) 0x3F))
      ∷ to_byte (bit_or 0x80 (bit_and (shr cp 6) 0x3F))
      ∷ to_byte (bit_or 0x80 (bit_and cp 0x3F))
      ∷ []
    else []

unfoldable pub utf8_length : ℕ → ℕ
utf8_length cp =
    if ltb cp 0x80
    then 1
    else if ltb cp 0x800
    then 2
    else if ltb cp 0x10000
    then 3
    else if ltb cp 0x110000
    then 4
    else 0
