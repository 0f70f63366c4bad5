-- ===== src/Sema/Examples.antt =====
-- A class, a variable and a function of one name, and the scopes around them.
use block_type.Prelude.{
  ◌≡◌, ◌↔◌, ◌⊎◌, refl, true, false, not, ◌&&◌, none, some, List, [], ◌∷◌, ◌++◌, All, if◌then◌else◌,
}
use block_type.Prelude.Maps
use block_type.Prelude.Maps.{string_key}
use block_type.Sema.Decls.{NamedDecl, var_decl, function_decl, cxx_record_decl, namespace_decl}
use block_type.Sema.Scope
use block_type.Sema.Scope.{
  Scope, new_scope, has_flags, add_decl, lookup, lookup_in_scope, enclosing_function_scope,
  enclosing_class_scope, enclosing_namespace_scope, enclosing_translation_unit_scope,
  enclosing_lambda_scope, enclosing_template_param_scope,
}
use block_type.Sema.Scope.Flag
use block_type.Sema.Scope.Tables.{last_named, is_none, lookup-add_decl}
use block_type.Sema.Scope.Blocks.{
  ScopeOp, push, pop, declare, apply, run, done, one, block_restores,
}
use block_type.Sema.Scope.Enclosing.{Finds, is_function, enclosing_scopes_iff}
use block_type.Sema.Scope.Expected.{blocks, expected, in_blocks, run-expected}
use block_type.Sema.SymbolTable
use block_type.Sema.SymbolTable.{
  SymbolTable, Report, empty, is_overloadable, add_ordinary_symbol, add_tag_decl, lookup_ordinary,
  lookup_tag,
}
use block_type.Sema.SymbolTable.Dispatch.{add_decl_unreachable}
use block_type.Sema.SymbolTable.Ordinary.{
  add_all, named, lookup_ordinary-add_all, add_ordinary_symbol-reports,
}
use block_type.Sema.SymbolTable.Tags.{or_else, clash, lookup_tag-add_tag_decl}
use block_type.Sema.Names.{Sema, register_decl, lookup_name}
use text.Mathlib.Text.{◌==◌ as str_eq}

abbrev variable : NamedDecl
variable = record { name = "f"; location = 10; kind = var_decl; complete = false }

abbrev function : NamedDecl
function = record { name = "f"; location = 20; kind = function_decl; complete = false }

abbrev forward : NamedDecl
forward = record { name = "C"; location = 30; kind = cxx_record_decl; complete = false }

abbrev definition : NamedDecl
definition = record { name = "C"; location = 40; kind = cxx_record_decl; complete = true }

abbrev std : NamedDecl
std = record { name = "std"; location = 50; kind = namespace_decl; complete = false }

abbrev unit : Scope
unit = new_scope Flag.translation_unit_scope

block_restores_example :
    run (push Flag.block_scope ∷ (declare variable ∷ []) ++ pop ∷ []) (unit ∷ []) ≡ unit ∷ []
block_restores_example =
    block_restores Flag.block_scope (declare variable ∷ []) (unit ∷ []) (one variable [] done)

abbrev nested : List ScopeOp
nested =
    push Flag.translation_unit_scope
    ∷ declare variable
    ∷ push Flag.function_body_scope
    ∷ declare function
    ∷ []

shadowed : lookup "f" (run nested []) ≡ some function
unfolding run apply Scope.push_scope new_scope add_decl Scope.put_decl lookup lookup_in_scope
    Maps.lookup Maps.insert
shadowed = refl

add_decl_unreachable_example :
    ((SymbolTable.add_decl std empty).0.namespaces ≡ [])
    × ((SymbolTable.add_decl std empty).0.templates ≡ [])
add_decl_unreachable_example = add_decl_unreachable std empty

lookup_ordinary-add_all_example :
    lookup_ordinary "f" (add_all (variable ∷ definition ∷ function ∷ []) empty)
    ≡ lookup_ordinary "f" empty ++ named "f" (variable ∷ definition ∷ function ∷ [])
lookup_ordinary-add_all_example =
    lookup_ordinary-add_all (variable ∷ definition ∷ function ∷ []) empty "f"

add_ordinary_symbol-reports_example : ((add_ordinary_symbol variable empty).0.reports ≡ []) ↔ (
    (is_overloadable variable ≡ true)
    ⊎ All (λ e. is_overloadable e ≡ true) (lookup_ordinary "f" empty))
add_ordinary_symbol-reports_example = add_ordinary_symbol-reports variable empty

abbrev declared : SymbolTable
declared = record empty { tags = ("C", forward) ∷ [] }

lookup_tag-add_tag_decl_example :
    (lookup_tag "C" (add_tag_decl definition declared).0 ≡ (
      if str_eq "C" "C" && not (str_eq "C" "")
      then or_else (lookup_tag "C" declared) definition
      else lookup_tag "C" declared))
    × ((add_tag_decl definition declared).0.reports
        ≡ (if str_eq "C" "" then [] else [] ++ clash definition (lookup_tag "C" declared)))
lookup_tag-add_tag_decl_example = lookup_tag-add_tag_decl definition declared "C"

-- The definition does not replace the forward declaration.
kept : lookup_tag "C" (add_tag_decl definition declared).0 ≡ some forward
unfolding lookup_tag add_tag_decl Maps.lookup
kept = refl

lookup-add_decl_example :
    let (s', added) = add_decl (some variable) unit in
    (added ≡ is_none (lookup_in_scope "f" unit))
    × (lookup "f" (s' ∷ [])
        ≡ (if added && str_eq "f" "f" then some variable else lookup "f" (unit ∷ [])))
    × (s' ≡ (if added then s' else unit))
    × (s'.decl_list ≡ (if added then [] ++ variable ∷ [] else []))
    × (s'.flags ≡ Flag.translation_unit_scope)
unfolding new_scope
lookup-add_decl_example = lookup-add_decl variable unit [] "f"

run-expected_example :
    (blocks (run nested []) ≡ expected nested [])
    × (lookup "f" (run nested []) ≡ last_named "f" none (in_blocks (expected nested [])))
run-expected_example = run-expected nested "f"

abbrev body : Scope
body = new_scope Flag.function_body_scope

abbrev in_body : List Scope
in_body = new_scope Flag.block_scope ∷ body ∷ unit ∷ []

enclosing_scopes_iff_example :
    Finds is_function in_body (enclosing_function_scope in_body) body (unit ∷ [])
    × Finds (has_flags Flag.class_scope) in_body (enclosing_class_scope in_body) body (unit ∷ [])
    × Finds
        (has_flags Flag.namespace_scope)
        in_body
        (enclosing_namespace_scope in_body)
        body
        (unit ∷ [])
    × Finds
        (has_flags Flag.translation_unit_scope)
        in_body
        (enclosing_translation_unit_scope in_body)
        body
        (unit ∷ [])
    × Finds (has_flags Flag.lambda_scope) in_body (enclosing_lambda_scope in_body) body (unit ∷ [])
    × Finds
        (has_flags Flag.template_param_scope)
        in_body
        (enclosing_template_param_scope in_body)
        body
        (unit ∷ [])
enclosing_scopes_iff_example = enclosing_scopes_iff in_body body (unit ∷ [])

abbrev sema : Sema
sema = record { current_scope = unit ∷ []; symbols = empty }

-- The global table still has the function when no scope is open any more.
outlives :
    lookup_name "f" (record (register_decl function sema) { current_scope = [] }) ≡ some function
unfolding lookup_name register_decl block_type.Sema.Names.register_in add_decl Scope.put_decl lookup
    Maps.lookup Maps.insert has_flags new_scope SymbolTable.add_decl add_ordinary_symbol
    SymbolTable.lookup_symbol lookup_ordinary SymbolTable.ordinary_or_empty
    block_type.Sema.Decls.isa_tag block_type.Sema.Decls.isa_typedef_name
    block_type.Sema.Decls.isa_namespace block_type.Sema.Decls.isa_template
    block_type.Sema.Decls.isa_concept block_type.Sema.Decls.position
outlives = refl
