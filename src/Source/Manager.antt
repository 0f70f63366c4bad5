-- ===== src/Source/Manager.antt =====
-- `SourceManager` of src/Basic/SourceManager.cpp: the files, their names, and macro expansions.
-- A `std::map` is an association list, and a pointer to a file is the file.
pub mod Files
pub mod Added
pub mod Locate
pub mod Macros
use Prim.Native.String.{String}
use block_type.Prelude.{
  ℕ, ◌+◌, ◌-◌, Bool, true, false, not, ◌||◌, Option, none, some, List, [], ◌∷◌, ◌++◌, leb, ltb,
  if◌then◌else◌, length, get_elem?, set, take, drop,
}
use block_type.Prelude.Maps.{nat_key, string_key, lookup, insert}
use block_type.Source.Location.{file_loc, is_valid, file_id, offset}
use block_type.Source.File.{FileInfo, u32, new_file, line_and_column}

pub record MacroExpansionInfo : Type 0 where
  pub spelling_loc : ℕ
  pub expansion_loc : ℕ
  pub macro_name : String

pub record SourceManager : Type 0 where
  pub files : List FileInfo
  pub filename_to_id : List (String × ℕ)
  pub macro_expansions : List (ℕ × MacroExpansionInfo)

unfoldable pub create_file_id : String → List ℕ → SourceManager → SourceManager × ℕ
create_file_id name text sm =
    let id = u32 (length sm.files) in
    let sm' = record sm {
      files = sm.files ++ new_file name text id ∷ [];
      filename_to_id = insert name id sm.filename_to_id;
    } in
    (sm', file_loc id 0)

-- The case of a main file that exists already.
unfoldable pub replace_main_file : String → List ℕ → SourceManager → SourceManager
replace_main_file name text sm = record sm {
  files = set sm.files 0 (new_file name text 0);
  filename_to_id = insert name 0 sm.filename_to_id;
}

unfoldable pub create_main_file_id : String → List ℕ → SourceManager → SourceManager × ℕ
create_main_file_id name text sm = elim sm.files [
  | [] ↦ create_file_id name text sm
  | f ∷ fs ↦ (replace_main_file name text sm, 0)
]

unfoldable pub file_info_by_id : SourceManager → ℕ → Option FileInfo
file_info_by_id sm id = if leb (length sm.files) id then none else get_elem? sm.files id

unfoldable pub file_info : SourceManager → ℕ → Option FileInfo
file_info sm loc = if not (is_valid loc) then none else file_info_by_id sm (file_id loc)

unfoldable pub file_info_by_name : SourceManager → String → Option FileInfo
file_info_by_name sm name = elim (lookup name sm.filename_to_id) [
  | none ↦ none
  | some id ↦ file_info_by_id sm id
]

unfoldable pub line_and_column_at : SourceManager → ℕ → ℕ × ℕ
line_and_column_at sm loc = elim (file_info sm loc) [
  | none ↦ (0, 0)
  | some f ↦ line_and_column f (offset loc)
]

unfoldable pub character_data : SourceManager → ℕ → List ℕ
character_data sm loc = elim (file_info sm loc) [
  | none ↦ []
  | some f ↦ let o = offset loc in if leb (length f.content) o then [] else drop o f.content
]

unfoldable pub character_range : SourceManager → ℕ → ℕ → List ℕ
character_range sm start end = elim (file_info sm start) [
  | none ↦ []
  | some f ↦
      let s = offset start in
      let e = offset end in
      if leb (length f.content) s || ltb (length f.content) e || ltb e s
      then []
      else take (e - s) (drop s f.content)
]

-- Only the files are cleared.
unfoldable pub clear : SourceManager → SourceManager
clear sm = record sm { files = [] }

unfoldable pub add_macro_expansion : ℕ → ℕ → ℕ → String → SourceManager → SourceManager
add_macro_expansion loc spelling expansion name sm = record sm {
  macro_expansions =
      insert loc (record { spelling_loc = spelling; expansion_loc = expansion; macro_name = name })
        sm.macro_expansions;
}

unfoldable pub spelling_loc : SourceManager → ℕ → ℕ
spelling_loc sm loc = elim (lookup loc sm.macro_expansions) [
  | none ↦ loc
  | some info ↦ info.spelling_loc
]

unfoldable pub expansion_loc : SourceManager → ℕ → ℕ
expansion_loc sm loc = elim (lookup loc sm.macro_expansions) [
  | none ↦ loc
  | some info ↦ info.expansion_loc
]

unfoldable pub is_macro_arg_expansion : SourceManager → ℕ → Bool
is_macro_arg_expansion sm loc = elim (lookup loc sm.macro_expansions) [
  | none ↦ false
  | some info ↦ true
]

unfoldable pub macro_name : SourceManager → ℕ → String
macro_name sm loc = elim (lookup loc sm.macro_expansions) [
  | none ↦ ""
  | some info ↦ info.macro_name
]
