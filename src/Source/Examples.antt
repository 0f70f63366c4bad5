-- ===== src/Source/Examples.antt =====
-- Two small files, their locations and a macro expansion.
use block_type.Prelude.{ℕ, ◌≡◌, refl, subst, none, some, List, [], ◌∷◌, arith, take}
use block_type.Prelude.Maps.{string_key, lookup, insert}
use block_type.Source.Location.{file_loc, is_valid}
use block_type.Source.File.{offsets_from, new_file, upper_bound, line_offset, line_and_column}
use block_type.Source.File.Lines.{scan}
use block_type.Source.Manager.{SourceManager, create_file_id, file_info, line_and_column_at}
use block_type.Source.Manager.Files.{IsConsistent, create_file_id-IsConsistent}
use block_type.Source.Manager.Locate.{line_and_column_at-scan}
use block_type.Source.Manager.Added.{Adds, create_file_id-Adds}
use block_type.Source.Manager.Macros
use block_type.Source.Manager.Macros.{
  Call, file, expansion, clear_files, run, last_recorded, Answers, run-Answers,
}

-- "ab\nc\n"
abbrev text : List ℕ
text = b'a' ∷ b'b' ∷ b'\n' ∷ b'c' ∷ b'\n' ∷ []

abbrev empty : SourceManager
empty = record { files = []; filename_to_id = []; macro_expansions = [] }

abbrev one_file : SourceManager
one_file = record {
  files = new_file "a.cpp" text 0 ∷ [];
  filename_to_id = ("a.cpp", 0) ∷ [];
  macro_expansions = [];
}

created : (create_file_id "a.cpp" text empty).0 ≡ one_file
unfolding create_file_id insert
created = refl

line_two : line_and_column (new_file "a.cpp" text 0) 4 ≡ (2, 2)
unfolding line_and_column new_file offsets_from upper_bound line_offset
line_two = refl

-- The start of the first file is the invalid location.
start_of_main : line_and_column_at one_file (file_loc 0 0) ≡ (0, 0)
unfolding line_and_column_at file_info is_valid file_loc
start_of_main = refl

one_file-IsConsistent : IsConsistent one_file
unfolding lookup
one_file-IsConsistent = subst IsConsistent created (
    create_file_id-IsConsistent "a.cpp" text empty
      (record { named = λ name id e. cc; numbered = λ i f e. cc }) (omega arith))

named_first : lookup "a.cpp" one_file.filename_to_id ≡ some 0
unfolding lookup
named_first = refl

line_and_column_at-scan_example :
    line_and_column_at one_file (file_loc 0 4) ≡ scan 1 1 (take 4 text)
line_and_column_at-scan_example =
    line_and_column_at-scan one_file 0 4 0 "a.cpp" text refl (omega arith) (omega arith)
      (omega arith)

create_file_id-Adds_example : Adds "b.cpp" text one_file (create_file_id "b.cpp" text one_file).0
create_file_id-Adds_example =
    create_file_id-Adds "b.cpp" text one_file (omega arith) one_file-IsConsistent

abbrev calls : List Call
calls = file "a.cpp" text ∷ expansion 7 9 11 "MAX" ∷ clear_files ∷ expansion 7 3 4 "MIN" ∷ []

run-Answers_example : Answers (run calls Macros.empty) 7 (last_recorded 7 none calls)
run-Answers_example = run-Answers calls 7
