-- ===== src/Source/Location/Fields.antt =====
-- The two fields of a location are independent.
use block_type.Prelude.{
  ℕ, ◌+◌, ◌-◌, ◌*◌, ◌/◌, ◌%◌, ◌^◌, ◌<◌, ◌≡◌, ◌∙◌, not, ◌&&◌, bit_and, arith, ◌==◌,
}
use block_type.Prelude.Bits.{bit_or-add, bit_and_ones, bit_and_shifted}
use block_type.Source.Location.{file_loc, file_id, offset, is_valid, file_id_mask, offset_mask}

module _ (f o : ℕ) (small : f < 2 ^ 16) (inside : o < 2 ^ 32) where
  file_loc-sum : file_loc f o ≡ f * 2 ^ 48 + o
  unfolding file_loc
  file_loc-sum =
      let kept : f * 2 ^ 48 % 2 ^ 64 ≡ f * 2 ^ 48 = omega arith in
      rw kept (bit_or-add 48 f o (omega arith))

  -- For a file number of 16 bits and an offset of 32, the encoded location gives both back.
  pub file_loc-fields : (file_id (file_loc f o) ≡ f) × (offset (file_loc f o) ≡ o)
  unfolding file_id offset
  file_loc-fields =
      let x = f * 2 ^ 48 + o in
      let high : bit_and x file_id_mask ≡ f * 2 ^ 48 =
        bit_and_shifted 48 x (2 ^ 16 - 1) ∙ rw (bit_and_ones 16 (x / 2 ^ 48)) (omega arith) in
      let low : bit_and x offset_mask ≡ x % 2 ^ 48 = bit_and_ones 48 x in
      rw file_loc-sum (rw high (omega arith), rw low (omega arith))

  -- Every such location is valid, but for the start of the first file.
  pub file_loc-is_valid : is_valid (file_loc f o) ≡ not (f == 0 && o == 0)
  unfolding is_valid
  file_loc-is_valid = rw file_loc-sum (ground arith)
