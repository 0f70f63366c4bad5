-- ===== src/Utf8/Examples.antt =====
-- The codec on concrete texts.
use block_type.Prelude.{ℕ, ◌≡◌, refl, List, [], ◌∷◌, ◌++◌, arith}
use block_type.Utf8.{
  invalid, lead, continuation, accept, finish, decode_sequence, decode_utf8, encode_utf8,
}
use block_type.Utf8.Canonical.{Encodes, decode-canonical}
use block_type.Utf8.RoundTrip.{decode-encode}

-- The euro sign, and a letter behind it.
abbrev euro : List ℕ
euro = 0xE2 ∷ 0x82 ∷ 0xAC ∷ 0x41 ∷ []

decode_euro : decode_utf8 euro ≡ (0x20AC, 0x41 ∷ [])
unfolding decode_utf8 decode_sequence lead continuation finish accept
decode_euro = refl

-- An overlong zero and a surrogate are errors; the pointer has passed the sequence.
decode_errors :
    (decode_utf8 (0xC0 ∷ 0x80 ∷ 0x41 ∷ []) ≡ (invalid, 0x41 ∷ []))
    × (decode_utf8 (0xED ∷ 0xA0 ∷ 0x80 ∷ []) ≡ (invalid, []))
unfolding decode_utf8 decode_sequence lead continuation finish accept
decode_errors = (refl, refl)

encode_ox : encode_utf8 0x10348 ≡ 0xF0 ∷ 0x90 ∷ 0x8D ∷ 0x88 ∷ []
unfolding encode_utf8
encode_ox = refl

decode-encode_example : decode_utf8 (encode_utf8 0x10348 ++ 0x41 ∷ []) ≡ (0x10348, 0x41 ∷ [])
decode-encode_example = decode-encode 0x10348 (0x41 ∷ []) (omega arith)

decode-canonical_example : Encodes euro 0x20AC (0x41 ∷ [])
decode-canonical_example =
    decode-canonical euro 0x20AC (0x41 ∷ []) (omega arith) decode_euro (omega arith)
