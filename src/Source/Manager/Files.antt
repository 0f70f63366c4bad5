-- ===== src/Source/Manager/Files.antt =====
-- What the manager knows of its files.
use Prim.Native.String.{String}
use block_type.Prelude.{
  ℕ, zero, suc, ◌^◌, ◌<◌, ◌≡◌, ◌⊎◌, inl, inr, refl, ap, some, List, [], ◌∷◌, ◌++◌, arith, length,
  get_elem?, set, length-append, length-set,
}
use block_type.Prelude.Maps.{string_key, lookup, insert, lookup-insert}
use block_type.Source.File.{FileInfo, new_file, u32}
use block_type.Source.Manager.{
  SourceManager, create_file_id, create_main_file_id, replace_main_file,
}

-- A name leads to a file, and a file knows its place.
pub record IsConsistent (sm : SourceManager) : Type 0 where
  pub named :
      (name : String) (id : ℕ) → lookup name sm.filename_to_id ≡ some id → id < length sm.files
  pub numbered : (i : ℕ) (f : FileInfo) → get_elem? sm.files i ≡ some f → f.file_id ≡ i

module _ {ℓ} {A : Type ℓ} where
  get_elem?-append_last :
      (xs : List A) (x : A) (i : ℕ) (y : A)
      → get_elem? (xs ++ x ∷ []) i ≡ some y
      → (get_elem? xs i ≡ some y) ⊎ ((i ≡ length xs) × (x ≡ y))
  get_elem?-append_last [] x zero y e = inr (refl, cc)
  get_elem?-append_last [] x (suc i) y e = inl e
  get_elem?-append_last (z ∷ xs) x zero y e = inl e
  get_elem?-append_last (z ∷ xs) x (suc i) y e = elim (get_elem?-append_last xs x i y e) [
    | inl old ↦ inl old
    | inr (at, same) ↦ inr (ap suc at, same)
  ]

  pub get_elem?-append_length :
      (xs : List A) (x : A) → get_elem? (xs ++ x ∷ []) (length xs) ≡ some x
  get_elem?-append_length [] x = refl
  get_elem?-append_length (y ∷ xs) x = get_elem?-append_length xs x

  pub get_elem?-append_old :
      (xs : List A) (x : A) (i : ℕ) → i < length xs → get_elem? (xs ++ x ∷ []) i ≡ get_elem? xs i
  get_elem?-append_old [] x i h = absurd (omega arith)
  get_elem?-append_old (y ∷ xs) x zero h = refl
  get_elem?-append_old (y ∷ xs) x (suc i) h = get_elem?-append_old xs x i (omega arith)

list_cases {ℓ} : {A : Type ℓ} (xs : List A) → (xs ≡ []) ⊎ ((y : A) × (ys : List A) × (xs ≡ y ∷ ys))
list_cases [] = inl refl
list_cases (y ∷ ys) = inr (y, ys, refl)

numbered-set :
    (fs : List FileInfo) (new : FileInfo) (i : ℕ) (g : FileInfo)
    → new.file_id ≡ 0
    → ((j : ℕ) (f : FileInfo) → get_elem? fs j ≡ some f → f.file_id ≡ j)
    → get_elem? (set fs 0 new) i ≡ some g
    → g.file_id ≡ i
numbered-set [] new i g first old h = old i g h
numbered-set (f ∷ fs) new zero g first old h = let same : new ≡ g = cc in rw (← same) first
numbered-set (f ∷ fs) new (suc i) g first old h = old (suc i) g h

named-insert :
    (m : List (String × ℕ)) (name other : String) (v id bound : ℕ)
    → lookup other (insert name v m) ≡ some id
    → v < bound
    → (lookup other m ≡ some id → id < bound)
    → id < bound
named-insert m name other v id bound e new old = ground (arith, lookup-insert name other v m)

module _ (name : String) (text : List ℕ) (sm : SourceManager) where
  -- A new file keeps the tables consistent, while file numbers fit 32 bits.
  pub create_file_id-IsConsistent :
      IsConsistent sm → length sm.files < 2 ^ 32 → IsConsistent (create_file_id name text sm).0
  unfolding create_file_id new_file
  create_file_id-IsConsistent ok room =
      let more = length-append sm.files (new_file name text (u32 (length sm.files)) ∷ []) in
      record {
        named = λ other id e.
            named-insert sm.filename_to_id name other (u32 (length sm.files)) id _ e (omega arith)
              (λ h. omega (arith, ok.named other id h));
        numbered = λ i f e. elim (get_elem?-append_last sm.files _ i f e) [
          | inl old ↦ ok.numbered i f old
          | inr (at, same) ↦ omega (arith, ap (λ (g : FileInfo). g.file_id) same)
        ];
      }

  create_main_first : sm.files ≡ [] → create_main_file_id name text sm ≡ create_file_id name text sm
  unfolding create_main_file_id
  create_main_first e = ground arith

  create_main_again :
      (f : FileInfo) (fs : List FileInfo)
      → sm.files ≡ f ∷ fs
      → create_main_file_id name text sm ≡ (replace_main_file name text sm, 0)
  unfolding create_main_file_id
  create_main_again f fs e = ground arith

  replace_main-IsConsistent :
      (f : FileInfo) (fs : List FileInfo)
      → sm.files ≡ f ∷ fs
      → IsConsistent sm
      → IsConsistent (replace_main_file name text sm)
  unfolding replace_main_file new_file
  replace_main-IsConsistent f fs e ok =
      let same = length-set sm.files 0 (new_file name text 0) in
      record {
        named = λ other id h.
            named-insert sm.filename_to_id name other 0 id _ h (omega (arith, ap length e))
              (λ h'. omega (arith, ok.named other id h'));
        numbered = λ i g h. numbered-set sm.files (new_file name text 0) i g refl ok.numbered h;
      }

  -- The same for a new main file, whether it is the first file or replaces it.
  create_main_file_id-IsConsistent :
      IsConsistent sm → length sm.files < 2 ^ 32 → IsConsistent (create_main_file_id name text sm).0
  create_main_file_id-IsConsistent ok room = elim (list_cases sm.files) [
    | inl e ↦ rw (create_main_first e) (create_file_id-IsConsistent ok room)
    | inr (f, fs, e) ↦ rw (create_main_again f fs e) (replace_main-IsConsistent f fs e ok)
  ]
