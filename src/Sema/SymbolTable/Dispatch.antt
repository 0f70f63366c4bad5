-- ===== src/Sema/SymbolTable/Dispatch.antt =====
-- Which table `addDecl` chooses.
use block_type.Prelude.Maps
use block_type.Prelude.Maps.{string_key}
use block_type.Prelude.{◌≡◌, not, ◌&&◌, Bool, Option, none, some, true, false, arith}
use block_type.Sema.Decls.{
  NodeKind, NamedDecl, isa_tag, isa_typedef_name, isa_namespace, isa_template,
}
use block_type.Sema.SymbolTable.{
  SymbolTable, add_decl, add_tag_decl, add_typedef_decl, add_ordinary_symbol, add_concept_decl,
}

-- The range of `TypedefNameDecl` holds the namespaces and all templates.
typedef_range :
    (k : NodeKind)
    → (isa_namespace k ≡ true → isa_typedef_name k ≡ true)
      × (isa_template k ≡ true → isa_typedef_name k ≡ true)
unfolding isa_namespace isa_template isa_typedef_name
typedef_range k = ground arith

-- `addDecl` never reaches the tables of namespaces and of templates: whatever the declaration, both
-- are as they were. (Such a declaration passes the range test of `TypedefNameDecl` before.)
pub add_decl_unreachable :
    (d : NamedDecl) (st : SymbolTable)
    → ((add_decl d st).0.namespaces ≡ st.namespaces) × ((add_decl d st).0.templates ≡ st.templates)
unfolding add_decl add_tag_decl add_typedef_decl add_ordinary_symbol add_concept_decl
add_decl_unreachable d st = ground (arith, typedef_range d.kind)

abbrev pub is_some : Option NamedDecl → Bool
is_some none = false
is_some (some d) = true

-- `addDecl` returns false exactly for a declaration that goes to the table of typedefs, which holds
-- its name already; it returns true also where it reports a redefinition.
add_decl_result :
    (d : NamedDecl) (st : SymbolTable)
    → (add_decl d st).1
      ≡ not (
          not (isa_tag d.kind)
          && isa_typedef_name d.kind
          && is_some (Maps.lookup d.name st.typedefs))
unfolding add_decl add_tag_decl add_typedef_decl add_ordinary_symbol
add_decl_result d st = ground arith
