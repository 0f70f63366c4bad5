-- ===== src/Source/Manager/Locate.antt =====
-- From a location to a line, a column and the text.
use Prim.Native.String.{String}
use block_type.Prelude.{
  ℕ, zero, suc, ◌+◌, ◌-◌, ◌^◌, ◌≤◌, ◌<◌, ◌≡◌, ◌&&◌, false, Bool-cases, inl, inr, some, none, List,
  [], ◌∷◌, ◌++◌, arith, ◌==◌, if◌then◌else◌, length, get_elem?, take, drop, drop-drop, drop-all,
  take-nil, take-append-drop,
}
use block_type.Source.Location.{file_loc, offset}
use block_type.Source.Location.Fields.{file_loc-fields, file_loc-is_valid}
use block_type.Source.File.{FileInfo, new_file, line_and_column}
use block_type.Source.File.Lines.{scan, line_and_column-scan}
use block_type.Source.Manager.{
  SourceManager, file_info, file_info_by_id, line_and_column_at, character_data, character_range,
}

get_elem?-lt {ℓ} :
    {A : Type ℓ} (xs : List A) (i : ℕ) {x : A} → get_elem? xs i ≡ some x → i < length xs
get_elem?-lt [] i e = cc
get_elem?-lt (y ∷ xs) zero e = omega arith
get_elem?-lt (y ∷ xs) (suc i) e = omega (arith, get_elem?-lt xs i e)

module _ (sm : SourceManager) (i o : ℕ) (f : FileInfo) (at : get_elem? sm.files i ≡ some f) where
  file_info-loc :
      i < 2 ^ 16
      → o < 2 ^ 32
      → file_info sm (file_loc i o) ≡ (if i == 0 && o == 0 then none else some f)
  unfolding file_info file_info_by_id
  file_info-loc small inside =
      let (number, place) = file_loc-fields i o small inside in
      ground (arith, file_loc-is_valid i o small inside, number, get_elem?-lt sm.files i at)

-- The accessors, at a location whose file is known.
module _ (sm : SourceManager) (loc : ℕ) (f : FileInfo) (info : file_info sm loc ≡ some f) where
  line_and_column_known : line_and_column_at sm loc ≡ line_and_column f (offset loc)
  unfolding line_and_column_at
  line_and_column_known = ground arith

  -- Behind the last byte both sides are empty.
  character_data_known : character_data sm loc ≡ drop (offset loc) f.content
  unfolding character_data
  character_data_known = ground (arith, drop-all f.content (offset loc))

  character_range_known :
      (e o : ℕ)
      → offset e ≡ o
      → offset loc ≤ o
      → o ≤ length f.content
      → character_range sm loc e ≡ take (o - offset loc) (drop (offset loc) f.content)
  unfolding character_range
  character_range_known e o place le fits =
      ground (arith, drop-all f.content (offset loc), take-nil {A = ℕ} (o - offset loc))

-- For a file of the manager whose size fits 32 bits and whose number fits 16, the line and the
-- column of a location up to the end of the file are those of a scan of the bytes in front of it;
-- but at the start of the first file, whose encoded location is the invalid one, they are 0 and 0.
pub line_and_column_at-scan :
    (sm : SourceManager) (i o id : ℕ) (name : String) (text : List ℕ)
    → get_elem? sm.files i ≡ some (new_file name text id)
    → i < 2 ^ 16
    → o ≤ length text
    → length text + 1 < 2 ^ 32
    → line_and_column_at sm (file_loc i o)
      ≡ (if i == 0 && o == 0 then (0, 0) else scan 1 1 (take o text))
unfolding line_and_column_at
line_and_column_at-scan sm i o id name text at small inside fits =
    let (number, place) = file_loc-fields i o small (omega arith) in
    let info = file_info-loc sm i o (new_file name text id) at small (omega arith) in
    let line = line_and_column-scan name text id o inside fits in
    elim (Bool-cases (i == 0 && o == 0)) [
      | inl first ↦ rw first (ground arith)
      | inr later ↦
          let known : file_info sm (file_loc i o) ≡ some (new_file name text id) =
            rw later at info in
          rw (later, line_and_column_known sm (file_loc i o) _ known, place) line
    ]

-- In one file of the manager, whose size fits 32 bits and whose number fits 16, for two locations in
-- order and within the file: the text between them and the text from the second on make up the text
-- from the first on, unless the first is the start of the first file.
character_range-split :
    (sm : SourceManager) (i s e : ℕ) (f : FileInfo)
    → get_elem? sm.files i ≡ some f
    → i < 2 ^ 16
    → s ≤ e
    → e ≤ length f.content
    → length f.content < 2 ^ 32
    → (i == 0 && s == 0) ≡ false
    → character_range sm (file_loc i s) (file_loc i e) ++ character_data sm (file_loc i e)
      ≡ character_data sm (file_loc i s)
character_range-split sm i s e f at small le inside fits later =
    let (n1, p1) = file_loc-fields i s small (omega arith) in
    let (n2, p2) = file_loc-fields i e small (omega arith) in
    let later2 : (i == 0 && e == 0) ≡ false = ground arith in
    let info1 : file_info sm (file_loc i s) ≡ some f =
      rw later at (file_info-loc sm i s f at small (omega arith)) in
    let info2 : file_info sm (file_loc i e) ≡ some f =
      rw later2 at (file_info-loc sm i e f at small (omega arith)) in
    let split = take-append-drop (e - s) (drop s f.content) in
    let sum : s + (e - s) ≡ e = omega arith in
    let tail : drop (e - s) (drop s f.content) ≡ drop e f.content =
      rw sum at (drop-drop (e - s) s f.content) in
    rw
      (
        character_range_known sm _ f info1 (file_loc i e) e p2 (omega arith) inside,
        character_data_known sm _ f info1,
        character_data_known sm _ f info2,
        p1,
        p2,
        ← tail,
      )
      split
