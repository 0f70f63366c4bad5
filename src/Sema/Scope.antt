-- ===== src/Sema/Scope.antt =====
-- src/Sema/Scope.cpp with include/blocktype/Sema/Scope.h. A scope with its chain of parents is a
-- list, the innermost scope first; the null pointer is the empty list.
pub mod Flag
pub mod Tables
pub mod Blocks
pub mod Enclosing
pub mod Expected
use Prim.Native.String.{String}
use block_type.Prelude.{
  ℕ, Bool, true, false, not, ◌||◌, Option, none, some, List, [], ◌∷◌, ◌++◌, bit_and, ◌==◌,
  if◌then◌else◌,
}
use block_type.Prelude.Maps
use block_type.Prelude.Maps.{string_key}
use block_type.Sema.Decls.{NamedDecl}

pub record Scope : Type 0 where
  pub flags : ℕ
  pub declarations : List (String × NamedDecl)
  pub decl_list : List NamedDecl

-- The constructor; the parent is the rest of the chain.
unfoldable pub new_scope : ℕ → Scope
new_scope flags = record { flags = flags; declarations = []; decl_list = [] }

unfoldable pub has_flags : ℕ → Scope → Bool
has_flags f s = not (bit_and s.flags f == Flag.none)

-- `Declarations[Name] = D; DeclList.push_back(D)`
unfoldable pub put_decl : NamedDecl → Scope → Scope
put_decl d s = record s {
  declarations = Maps.insert d.name d s.declarations;
  decl_list = s.decl_list ++ d ∷ [];
}

unfoldable pub lookup_in_scope : String → Scope → Option NamedDecl
lookup_in_scope name s = Maps.lookup name s.declarations

unfoldable pub add_decl : Option NamedDecl → Scope → Scope × Bool
add_decl none s = (s, false)
add_decl (some d) s = elim (Maps.lookup d.name s.declarations) [
  | some other ↦ (s, false)
  | none ↦ (put_decl d s, true)
]

unfoldable pub add_decl_allow_redeclaration : Option NamedDecl → Scope → Scope
add_decl_allow_redeclaration none s = s
add_decl_allow_redeclaration (some d) s = put_decl d s

unfoldable pub lookup : String → List Scope → Option NamedDecl
lookup name [] = none
lookup name (s ∷ parents) = elim (lookup_in_scope name s) [
  | some d ↦ some d
  | none ↦ lookup name parents
]

unfoldable pub is_function_scope : Scope → Bool
is_function_scope s =
    has_flags Flag.function_prototype_scope s || has_flags Flag.function_body_scope s

-- The six `getEnclosing…Scope` functions; a scope is returned with its parents.
unfoldable pub enclosing_function_scope : List Scope → Option (List Scope)
enclosing_function_scope [] = none
enclosing_function_scope (s ∷ parents) =
    if is_function_scope s then some (s ∷ parents) else enclosing_function_scope parents

unfoldable pub enclosing_class_scope : List Scope → Option (List Scope)
enclosing_class_scope [] = none
enclosing_class_scope (s ∷ parents) =
    if has_flags Flag.class_scope s then some (s ∷ parents) else enclosing_class_scope parents

unfoldable pub enclosing_namespace_scope : List Scope → Option (List Scope)
enclosing_namespace_scope [] = none
enclosing_namespace_scope (s ∷ parents) =
    if has_flags Flag.namespace_scope s
    then some (s ∷ parents)
    else enclosing_namespace_scope parents

unfoldable pub enclosing_translation_unit_scope : List Scope → Option (List Scope)
enclosing_translation_unit_scope [] = none
enclosing_translation_unit_scope (s ∷ parents) =
    if has_flags Flag.translation_unit_scope s
    then some (s ∷ parents)
    else enclosing_translation_unit_scope parents

unfoldable pub enclosing_lambda_scope : List Scope → Option (List Scope)
enclosing_lambda_scope [] = none
enclosing_lambda_scope (s ∷ parents) =
    if has_flags Flag.lambda_scope s then some (s ∷ parents) else enclosing_lambda_scope parents

unfoldable pub enclosing_template_param_scope : List Scope → Option (List Scope)
enclosing_template_param_scope [] = none
enclosing_template_param_scope (s ∷ parents) =
    if has_flags Flag.template_param_scope s
    then some (s ∷ parents)
    else enclosing_template_param_scope parents

-- `Sema::PushScope` and `Sema::PopScope` of src/Sema/Sema.cpp.
unfoldable pub push_scope : ℕ → List Scope → List Scope
push_scope flags chain = new_scope flags ∷ chain

unfoldable pub pop_scope : List Scope → List Scope
pop_scope [] = []
pop_scope (s ∷ parents) = parents
