-- ===== src/Sema/Names.antt =====
-- How `Sema` registers and finds names: `registerDecl` and `registerDeclAllowRedecl` of
-- include/blocktype/Sema/Sema.h, `LookupName` of src/Sema/Sema.cpp.
pub mod Visibility
use Prim.Native.String.{String}
use block_type.Prelude.{Bool, ◌&&◌, Option, none, some, List, [], ◌∷◌, if◌then◌else◌}
use block_type.Sema.Decls.{NamedDecl}
use block_type.Sema.Scope
use block_type.Sema.Scope.Flag
use block_type.Sema.Scope.{Scope}
use block_type.Sema.SymbolTable
use block_type.Sema.SymbolTable.{SymbolTable, lookup_symbol}

pub record Sema : Type 0 where
  pub current_scope : List Scope
  pub symbols : SymbolTable

-- Only declarations of the translation unit go to the global table too.
unfoldable pub register_in : NamedDecl → Scope → List Scope → SymbolTable → Sema
register_in d s parents st =
    let (s', added) = Scope.add_decl (some d) s in
    record {
      current_scope = s' ∷ parents;
      symbols =
          if added && Scope.has_flags Flag.translation_unit_scope s'
          then (SymbolTable.add_decl d st).0
          else st;
    }

unfoldable pub register_decl : NamedDecl → Sema → Sema
register_decl d sema = elim sema.current_scope [
  | [] ↦ sema
  | s ∷ parents ↦ register_in d s parents sema.symbols
]

unfoldable pub register_decl_allow_redecl : NamedDecl → Sema → Sema
register_decl_allow_redecl d sema = record {
  current_scope = elim sema.current_scope [
    | [] ↦ []
    | s ∷ parents ↦ Scope.add_decl_allow_redeclaration (some d) s ∷ parents
  ];
  symbols = (SymbolTable.add_decl d sema.symbols).0;
}

abbrev head? : List NamedDecl → Option NamedDecl
head? [] = none
head? (d ∷ ds) = some d

unfoldable pub lookup_name : String → Sema → Option NamedDecl
lookup_name name sema = elim (Scope.lookup name sema.current_scope) [
  | some d ↦ some d
  | none ↦ head? (lookup_symbol name sema.symbols)
]
