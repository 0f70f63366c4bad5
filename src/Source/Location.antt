-- ===== src/Source/Location.antt =====
-- include/blocktype/Basic/SourceLocation.h: a file number and an offset in one 64-bit word.
pub mod Fields
use block_type.Prelude.{ℕ, ◌+◌, ◌-◌, ◌*◌, ◌%◌, ◌^◌, Bool, not, bit_and, bit_or, ◌==◌}
use block_type.Prelude.Bits.{shr}

-- `x << 48` on a `uint64_t`.
abbrev pub shl48 : ℕ → ℕ
shl48 x = x * 2 ^ 48 % 2 ^ 64

abbrev pub file_id_mask : ℕ
file_id_mask = (2 ^ 16 - 1) * 2 ^ 48

abbrev pub offset_mask : ℕ
offset_mask = 2 ^ 48 - 1

-- `getFileLoc`
unfoldable pub file_loc : ℕ → ℕ → ℕ
file_loc file_id offset = bit_or (shl48 file_id) offset

unfoldable pub is_valid : ℕ → Bool
is_valid id = not (id == 0)

-- The casts to `unsigned` keep 32 bits.
unfoldable pub file_id : ℕ → ℕ
file_id id = shr (bit_and id file_id_mask) 48 % 2 ^ 32

unfoldable pub offset : ℕ → ℕ
offset id = bit_and id offset_mask % 2 ^ 32
