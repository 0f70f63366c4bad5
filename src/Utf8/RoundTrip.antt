-- ===== src/Utf8/RoundTrip.antt =====
-- Decoding what was encoded.
use block_type.Prelude.{ℕ, ◌≡◌, List, ◌++◌, length, arith, dec_lt}
use block_type.Utf8.{encode_utf8, decode_utf8, utf8_length}
use block_type.Utf8.Sequences.{IsScalar, decode_two, decode_three, decode_four}
use block_type.Utf8.Encodings.{encode_one, encode_two, encode_three, encode_four}

-- For every Unicode scalar value, whatever bytes follow its encoding, the decoder returns the value
-- and stops at the first byte that follows.
pub decode-encode :
    (cp : ℕ) (rest : List ℕ) → IsScalar cp → decode_utf8 (encode_utf8 cp ++ rest) ≡ (cp, rest)
decode-encode cp rest s = elim (dec_lt cp 0x80) [
  | yes a ↦ rw (encode_one cp a) (unfold decode_utf8 in ground arith)
  | no na ↦ elim (dec_lt cp 0x800) [
    | yes b ↦ rw (encode_two cp (omega arith) b) (
        decode_two _ _ cp rest (omega arith) (omega arith) (omega arith) (omega arith)
          (omega arith))
    | no nb ↦ elim (dec_lt cp 0x10000) [
      | yes c ↦ rw (encode_three cp (omega arith) c) (
          decode_three _ _ cp rest (omega arith) _ (omega arith) (omega arith) (omega arith)
            (omega arith) (omega arith) s)
      | no nc ↦ rw (encode_four cp (omega arith) s.0) (
          decode_four _ _ cp rest (omega arith) _ _ (omega arith) (omega arith) (omega arith)
            (omega arith) (omega arith) (omega arith) s.0)
    ]
  ]
]

-- `getUTF8Length` is the number of bytes that `encodeUTF8` writes, 0 outside Unicode included.
length-encode : (cp : ℕ) → length (encode_utf8 cp) ≡ utf8_length cp
unfolding encode_utf8 utf8_length
length-encode cp = ground arith
