-- ===== src/Source/File.antt =====
-- `FileInfo` of src/Basic/SourceManager.cpp: a file, its bytes and the offsets of its lines.
pub mod Lines
use Prim.Native.String.{String}
use block_type.Prelude.{
  ℕ, zero, suc, ◌+◌, ◌-◌, ◌%◌, ◌^◌, Bool, true, false, ◌||◌, List, [], ◌∷◌, ltb, ◌==◌,
  if◌then◌else◌, length, get_or,
}

pub record FileInfo : Type 0 where
  pub filename : String
  pub content : List ℕ
  pub file_id : ℕ
  pub line_offsets : List ℕ

-- `static_cast<unsigned>`, and the result of `unsigned` arithmetic.
abbrev pub u32 : ℕ → ℕ
u32 x = x % 2 ^ 32

-- The loop of the constructor at index `i`: an entry behind each '\n'.
unfoldable pub offsets_from : ℕ → List ℕ → List ℕ
offsets_from i [] = []
offsets_from i (c ∷ cs) =
    let rest = offsets_from (i + 1) cs in if c == b'\n' then u32 (i + 1) ∷ rest else rest

unfoldable pub new_file : String → List ℕ → ℕ → FileInfo
new_file name text id = record {
  filename = name;
  content = text;
  file_id = id;
  line_offsets = 0 ∷ offsets_from 0 text;
}

-- `std::upper_bound` on a sorted vector: the index of the first entry above `x`, or the length.
unfoldable pub upper_bound : ℕ → List ℕ → ℕ
upper_bound x [] = 0
upper_bound x (y ∷ ys) = if ltb x y then 0 else suc (upper_bound x ys)

unfoldable pub line_offset : FileInfo → ℕ → ℕ
line_offset f line =
    if line == 0 || ltb (length f.line_offsets) line then 0 else get_or f.line_offsets (line - 1) 0

unfoldable pub line_and_column : FileInfo → ℕ → ℕ × ℕ
line_and_column f offset =
    let it = upper_bound offset f.line_offsets in
    let line = if it == 0 then 1 else u32 it in
    (line, u32 (u32 (offset + 2 ^ 32 - line_offset f line) + 1))
