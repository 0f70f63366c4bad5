-- ===== src/Sema/SymbolTable/Tags.antt =====
-- Classes and enumerations: the first declaration of a name stays.
use Prim.Native.String.{String}
use text.Mathlib.Text.{◌==◌ as str_eq}
use text.Mathlib.TextEquality.{eq_iff}
use block_type.Prelude.{
  ◌≡◌, not, ◌&&◌, Option, none, some, List, [], ◌∷◌, ◌++◌, arith, if◌then◌else◌,
}
use mathlib.Core.List.{append-nil}
use block_type.Prelude.Maps
use block_type.Prelude.Maps.{string_key}
use block_type.Sema.Decls.{NamedDecl}
use block_type.Sema.SymbolTable.{
  SymbolTable, Report, err_redefinition, note_previous_definition, add_tag_decl, lookup_tag,
}

abbrev pub or_else : Option NamedDecl → NamedDecl → Option NamedDecl
or_else none d = some d
or_else (some old) d = some old

-- What `addTagDecl` reports.
abbrev pub clash : NamedDecl → Option NamedDecl → List Report
clash d none = []
clash d (some old) =
    if d.complete && old.complete
    then err_redefinition d.location d.name ∷ note_previous_definition old.location ∷ []
    else []

-- After a tag is added, its name leads to the declaration that the name had before, and only if it
-- had none to the new one: also where the old one is a forward declaration and the new one is the
-- definition. Other names are as before, and so is everything if the tag has no name. A
-- redefinition is reported exactly if both declarations are complete.
pub lookup_tag-add_tag_decl :
    (d : NamedDecl) (st : SymbolTable) (name : String)
    → (lookup_tag name (add_tag_decl d st).0 ≡ (
        if str_eq d.name name && not (str_eq d.name "")
        then or_else (lookup_tag name st) d
        else lookup_tag name st))
      × ((add_tag_decl d st).0.reports
          ≡ (if str_eq d.name "" then st.reports else st.reports ++ clash d (lookup_tag d.name st)))
unfolding lookup_tag add_tag_decl
lookup_tag-add_tag_decl d st name = (
  ground (arith, eq_iff d.name name, Maps.lookup-insert d.name name d st.tags),
  ground (arith, append-nil st.reports),
)
