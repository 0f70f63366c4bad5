-- ===== src/Sema/SymbolTable.antt =====
-- src/Sema/SymbolTable.cpp: the global tables of names, one for each kind of declaration. What
-- `Diags.report` is told is appended to a list.
pub mod Dispatch
pub mod Ordinary
pub mod Tags
use Prim.Native.String.{String}
use text.Mathlib.Text.{◌==◌ as str_eq}
use block_type.Prelude.{
  ℕ, ◌+◌, Bool, true, false, not, ◌||◌, Option, none, some, List, [], ◌∷◌, ◌++◌, if◌then◌else◌,
  length,
}
use block_type.Prelude.Maps
use block_type.Prelude.Maps.{string_key}
use block_type.Sema.Decls.{
  NamedDecl, isa_tag, isa_typedef_name, isa_namespace, isa_template, isa_concept, isa_function,
  isa_cxx_method,
}

pub data Report : Type 0 where
  err_redefinition : ℕ → String → Report
  note_previous_definition : ℕ → Report

pub record SymbolTable : Type 0 where
  pub ordinary_symbols : List (String × List NamedDecl)
  pub tags : List (String × NamedDecl)
  pub typedefs : List (String × NamedDecl)
  pub namespaces : List (String × NamedDecl)
  pub templates : List (String × NamedDecl)
  pub concepts : List (String × NamedDecl)
  pub reports : List Report

abbrev pub empty : SymbolTable
empty = record {
  ordinary_symbols = [];
  tags = [];
  typedefs = [];
  namespaces = [];
  templates = [];
  concepts = [];
  reports = [];
}

unfoldable pub is_overloadable : NamedDecl → Bool
is_overloadable d = isa_function d.kind || isa_cxx_method d.kind

-- The loop over the existing declarations; it stops after one report.
unfoldable pub redefinition : NamedDecl → List NamedDecl → List Report
redefinition d [] = []
redefinition d (e ∷ es) =
    if is_overloadable e
    then redefinition d es
    else err_redefinition d.location d.name ∷ note_previous_definition e.location ∷ []

-- `OrdinarySymbols[Name]` is empty if the name is new.
unfoldable pub ordinary_or_empty : String → SymbolTable → List NamedDecl
ordinary_or_empty name st = elim (Maps.lookup name st.ordinary_symbols) [ none ↦ [] | some ds ↦ ds ]

unfoldable pub add_ordinary_symbol : NamedDecl → SymbolTable → SymbolTable × Bool
add_ordinary_symbol d st =
    let decls = ordinary_or_empty d.name st in
    let st' = record st {
      ordinary_symbols = Maps.insert d.name (decls ++ d ∷ []) st.ordinary_symbols;
      reports = st.reports ++ (if is_overloadable d then [] else redefinition d decls);
    } in
    (st', true)

unfoldable pub add_tag_decl : NamedDecl → SymbolTable → SymbolTable × Bool
add_tag_decl d st = if str_eq d.name "" then (st, true) else elim (Maps.lookup d.name st.tags) [
  | some old ↦ if not d.complete || not old.complete then (st, true) else (
    record st {
      reports =
          st.reports
          ++ err_redefinition d.location d.name ∷ note_previous_definition old.location ∷ [];
    },
    true,
  )
  | none ↦ (record st { tags = Maps.insert d.name d st.tags }, true)
]

unfoldable pub add_typedef_decl : NamedDecl → SymbolTable → SymbolTable × Bool
add_typedef_decl d st = elim (Maps.lookup d.name st.typedefs) [
  | some old ↦ (st, false)
  | none ↦ (record st { typedefs = Maps.insert d.name d st.typedefs }, true)
]

unfoldable pub add_namespace_decl : NamedDecl → SymbolTable → SymbolTable
add_namespace_decl d st = record st { namespaces = Maps.insert d.name d st.namespaces }

unfoldable pub add_template_decl : NamedDecl → SymbolTable → SymbolTable
add_template_decl d st = record st { templates = Maps.insert d.name d st.templates }

unfoldable pub add_concept_decl : NamedDecl → SymbolTable → SymbolTable
add_concept_decl d st = record st { concepts = Maps.insert d.name d st.concepts }

unfoldable pub add_decl : NamedDecl → SymbolTable → SymbolTable × Bool
add_decl d st =
    if isa_tag d.kind
    then add_tag_decl d st
    else if isa_typedef_name d.kind
    then add_typedef_decl d st
    else if isa_namespace d.kind
    then (add_namespace_decl d st, true)
    else if isa_template d.kind
    then (add_template_decl d st, true)
    else if isa_concept d.kind
    then (add_concept_decl d st, true)
    else add_ordinary_symbol d st

unfoldable pub lookup_ordinary : String → SymbolTable → List NamedDecl
lookup_ordinary name st = ordinary_or_empty name st

unfoldable pub lookup_tag : String → SymbolTable → Option NamedDecl
lookup_tag name st = Maps.lookup name st.tags

unfoldable pub lookup_typedef : String → SymbolTable → Option NamedDecl
lookup_typedef name st = Maps.lookup name st.typedefs

unfoldable pub lookup_namespace : String → SymbolTable → Option NamedDecl
lookup_namespace name st = Maps.lookup name st.namespaces

unfoldable pub lookup_template : String → SymbolTable → Option NamedDecl
lookup_template name st = Maps.lookup name st.templates

unfoldable pub lookup_concept : String → SymbolTable → Option NamedDecl
lookup_concept name st = Maps.lookup name st.concepts

unfoldable pub lookup_symbol : String → SymbolTable → List NamedDecl
lookup_symbol name st = elim (lookup_ordinary name st) [
  | [] ↦ elim (lookup_template name st) [ none ↦ [] | some t ↦ t ∷ [] ]
  | d ∷ ds ↦ d ∷ ds
]

unfoldable pub count {ℓ} : {V : Type ℓ} → String → List (String × V) → Bool
count name m = elim (Maps.lookup name m) [ none ↦ false | some v ↦ true ]

unfoldable pub contains : String → SymbolTable → Bool
contains name st =
    count name st.ordinary_symbols
    || count name st.tags
    || count name st.typedefs
    || count name st.namespaces
    || count name st.templates
    || count name st.concepts

unfoldable pub size : SymbolTable → ℕ
size st =
    length st.ordinary_symbols
    + length st.tags
    + length st.typedefs
    + length st.namespaces
    + length st.templates
    + length st.concepts
