-- ===== src/Source/Manager/Macros.antt =====
-- The table of macro expansions over the life of a manager.
use Prim.Native.String.{String}
use block_type.Prelude.{
  ℕ, ◌≡◌, refl, subst, ap, ◌∙◌, Option, none, some, true, false, List, [], ◌∷◌, arith, ◌==◌,
  if◌then◌else◌,
}
use block_type.Prelude.Maps.{nat_key, lookup, lookup-insert}
use block_type.Source.Manager.{
  MacroExpansionInfo, SourceManager, create_file_id, create_main_file_id, replace_main_file, clear,
  add_macro_expansion, spelling_loc, expansion_loc, is_macro_arg_expansion, macro_name,
}

-- The calls that change a manager.
pub data Call : Type 0 where
  main_file file : String → List ℕ → Call
  expansion : ℕ → ℕ → ℕ → String → Call
  clear_files : Call

unfoldable pub apply : Call → SourceManager → SourceManager
apply (main_file name text) sm = (create_main_file_id name text sm).0
apply (file name text) sm = (create_file_id name text sm).0
apply (expansion loc spelling at name) sm = add_macro_expansion loc spelling at name sm
apply clear_files sm = clear sm

unfoldable pub run : List Call → SourceManager → SourceManager
run [] sm = sm
run (c ∷ cs) sm = run cs (apply c sm)

abbrev pub empty : SourceManager
empty = record { files = []; filename_to_id = []; macro_expansions = [] }

-- What is recorded for the location `j` after a call, by what was before: the spelling and expansion
-- locations and the name.
unfoldable pub recorded_after : ℕ → Option (ℕ × ℕ × String) → Call → Option (ℕ × ℕ × String)
recorded_after j before (main_file name text) = before
recorded_after j before (file name text) = before
recorded_after j before (expansion loc spelling at name) =
    if loc == j then some (spelling, at, name) else before
recorded_after j before clear_files = before

unfoldable pub last_recorded : ℕ → Option (ℕ × ℕ × String) → List Call → Option (ℕ × ℕ × String)
last_recorded j before [] = before
last_recorded j before (c ∷ cs) = last_recorded j (recorded_after j before c) cs

-- The four queries at `j`: the recorded answers, or those of a location that is in no macro.
pub record Answers (sm : SourceManager) (j : ℕ) (recorded : Option (ℕ × ℕ × String)) : Type 0 where
  pub spelled : spelling_loc sm j ≡ elim recorded [ none ↦ j | some (s, e, n) ↦ s ]
  pub expanded : expansion_loc sm j ≡ elim recorded [ none ↦ j | some (s, e, n) ↦ e ]
  pub in_macro : is_macro_arg_expansion sm j ≡ elim recorded [ none ↦ false | some r ↦ true ]
  pub named : macro_name sm j ≡ elim recorded [ none ↦ "" | some (s, e, n) ↦ n ]

abbrev entry_of : MacroExpansionInfo → ℕ × ℕ × String
entry_of info = (info.spelling_loc, info.expansion_loc, info.macro_name)

unfoldable recorded_at : ℕ → SourceManager → Option (ℕ × ℕ × String)
recorded_at j sm = elim (lookup j sm.macro_expansions) [
  | none ↦ none
  | some info ↦ some (entry_of info)
]

recorded_at-Answers : (j : ℕ) (sm : SourceManager) → Answers sm j (recorded_at j sm)
unfolding recorded_at spelling_loc expansion_loc is_macro_arg_expansion macro_name
recorded_at-Answers j sm = record {
  spelled = ground arith;
  expanded = ground arith;
  in_macro = ground arith;
  named = ground arith;
}

-- Only a recorded expansion changes the table.
recorded_at-apply :
    (j : ℕ) (c : Call) (sm : SourceManager)
    → recorded_at j (apply c sm) ≡ recorded_after j (recorded_at j sm) c
unfolding apply recorded_after recorded_at create_main_file_id create_file_id replace_main_file
    clear add_macro_expansion
recorded_at-apply j (main_file name text) sm = ground arith
recorded_at-apply j (file name text) sm = refl
recorded_at-apply j (expansion loc spelling at name) sm =
    let info : MacroExpansionInfo = record {
      spelling_loc = spelling;
      expansion_loc = at;
      macro_name = name;
    } in
    ground (arith, lookup-insert loc j info sm.macro_expansions)
recorded_at-apply j clear_files sm = refl

recorded_at-run :
    (j : ℕ) (cs : List Call) (sm : SourceManager)
    → recorded_at j (run cs sm) ≡ last_recorded j (recorded_at j sm) cs
unfolding run last_recorded
recorded_at-run j [] sm = refl
recorded_at-run j (c ∷ cs) sm =
    recorded_at-run j cs (apply c sm)
    ∙ ap (λ (r : Option (ℕ × ℕ × String)). last_recorded j r cs) (recorded_at-apply j c sm)

-- After any calls on a new manager that add files, replace the main file, clear the files or record
-- macro expansions, the four queries at a location answer what was recorded last for it, also after the
-- files are cleared; where nothing was recorded for it, the spelling and expansion locations are the
-- location itself, it is in no expansion, and the name is empty.
pub run-Answers : (cs : List Call) (j : ℕ) → Answers (run cs empty) j (last_recorded j none cs)
unfolding recorded_at lookup
run-Answers cs j =
    subst (Answers (run cs empty) j) (recorded_at-run j cs empty)
      (recorded_at-Answers j (run cs empty))
