-- ===== src/Source/Manager/Added.antt =====
-- What a new file changes, and what clearing the manager leaves behind.
use Prim.Native.String.{String}
use text.Mathlib.TextEquality.{eq_iff}
use text.Mathlib.Text.{◌==◌ as str_eq}
use block_type.Prelude.{
  ℕ, ◌+◌, ◌^◌, ◌<◌, ◌≡◌, ◌≢◌, inl, inr, ap, some, List, [], ◌∷◌, ◌++◌, arith, length, Option-cases,
  get_elem?, length-append, if◌then◌else◌,
}
use block_type.Prelude.Maps.{string_key, lookup, insert, lookup-insert}
use block_type.Source.File.{FileInfo, new_file, u32}
use block_type.Source.Manager.{
  SourceManager, create_file_id, file_info_by_id, file_info_by_name, clear,
}
use block_type.Source.Manager.Files.{
  IsConsistent, create_file_id-IsConsistent, get_elem?-append_length, get_elem?-append_old,
}

-- The effect of `createFileID`: the new file is last, is found by its number and by its name, and
-- every other number and name finds what it found before; numbers and names stay consistent.
pub record Adds (name : String) (text : List ℕ) (sm sm' : SourceManager) : Type 0 where
  pub consistent : IsConsistent sm'
  pub more : length sm'.files ≡ length sm.files + 1
  pub by_id : file_info_by_id sm' (length sm.files) ≡ some (new_file name text (length sm.files))
  pub by_name : file_info_by_name sm' name ≡ some (new_file name text (length sm.files))
  pub old_id : (i : ℕ) → i < length sm.files → file_info_by_id sm' i ≡ file_info_by_id sm i
  pub old_name :
      (other : String) → other ≢ name → file_info_by_name sm' other ≡ file_info_by_name sm other

module _ (name : String) (text : List ℕ) (sm : SourceManager)
    (room : length sm.files < 2 ^ 32) where
  abbrev sm' : SourceManager
  sm' = (create_file_id name text sm).0

  files_after : sm'.files ≡ sm.files ++ new_file name text (length sm.files) ∷ []
  unfolding create_file_id
  files_after =
      ap (λ (i : ℕ). sm.files ++ new_file name text i ∷ [])
        (let kept : u32 (length sm.files) ≡ length sm.files = omega arith in kept)

  names_after : sm'.filename_to_id ≡ insert name (length sm.files) sm.filename_to_id
  unfolding create_file_id
  names_after =
      ap (λ (i : ℕ). insert name i sm.filename_to_id)
        (let kept : u32 (length sm.files) ≡ length sm.files = omega arith in kept)

  length_after : length sm'.files ≡ length sm.files + 1
  length_after = rw files_after (omega (arith, length-append {0} sm.files (_ ∷ [])))

  by_id_after : file_info_by_id sm' (length sm.files) ≡ some (new_file name text (length sm.files))
  unfolding file_info_by_id
  by_id_after =
      let more = length_after in
      let last = get_elem?-append_length sm.files (new_file name text (length sm.files)) in
      ground (arith, ap (λ (fs : List FileInfo). get_elem? fs (length sm.files)) files_after)

  old_id_after : (i : ℕ) → i < length sm.files → file_info_by_id sm' i ≡ file_info_by_id sm i
  unfolding file_info_by_id
  old_id_after i h =
      let more = length_after in
      let old = get_elem?-append_old sm.files (new_file name text (length sm.files)) i h in
      ground (arith, ap (λ (fs : List FileInfo). get_elem? fs i) files_after)

  lookup_after :
      (other : String)
      → lookup other sm'.filename_to_id
        ≡ (if str_eq name other then some (length sm.files) else lookup other sm.filename_to_id)
  lookup_after other = rw names_after (lookup-insert name other _ sm.filename_to_id)

  -- `createFileID`, while file numbers fit 32 bits, where every name leads to a file and every file
  -- knows its place: this stays so; there is one file more, with the given name and text, which is found
  -- under the new number and under its name; and every other number and name leads where it did.
  pub create_file_id-Adds : IsConsistent sm → Adds name text sm (create_file_id name text sm).0
  unfolding file_info_by_name
  create_file_id-Adds ok = record {
    consistent = create_file_id-IsConsistent name text sm ok room;
    more = length_after;
    by_id = by_id_after;
    by_name = ground (arith, lookup_after name, eq_iff name name, by_id_after);
    old_id = old_id_after;
    old_name = λ other ne. elim (Option-cases (lookup other sm.filename_to_id)) [
      | inl e ↦ ground (arith, lookup_after other, eq_iff name other)
      | inr (id, e) ↦
          ground (arith, lookup_after other, eq_iff name other, old_id_after id, ok.named other id)
    ];
  }

-- `clear` empties the files and keeps the names. A name that led to the first file leads to the
-- next file that is created, whatever that one is called.
clear_keeps_names :
    (sm : SourceManager) (old name : String) (text : List ℕ)
    → lookup old sm.filename_to_id ≡ some 0
    → file_info_by_name (create_file_id name text (clear sm)).0 old ≡ some (new_file name text 0)
unfolding file_info_by_name file_info_by_id create_file_id clear
clear_keeps_names sm old name text e =
    ground (arith, lookup-insert name old 0 sm.filename_to_id, eq_iff name old)
