-- ===== src/Sema/Scope/Tables.antt =====
-- The table of a scope against its list of declarations.
use Prim.Native.String.{String}
use text.Mathlib.Text.{◌==◌ as str_eq}
use block_type.Prelude.{
  ℕ, ◌≡◌, Bool, true, false, Option, none, some, List, [], ◌∷◌, ◌++◌, ◌&&◌, arith, if◌then◌else◌,
  inl, inr, refl, Option-cases,
}
use block_type.Prelude.Maps
use block_type.Prelude.Maps.{string_key}
use block_type.Sema.Decls.{NamedDecl}
use block_type.Sema.Scope.{
  Scope, new_scope, put_decl, add_decl, add_decl_allow_redeclaration, lookup_in_scope, lookup,
}

-- The last declaration of a name in a list, if there is one; `before` is what came earlier.
unfoldable pub last_named : String → Option NamedDecl → List NamedDecl → Option NamedDecl
last_named name before [] = before
last_named name before (d ∷ ds) = last_named name (if str_eq d.name name then some d else before) ds

-- The table finds the last declaration of each name in the list.
abbrev pub IsIndexed : Scope → Type 0
IsIndexed s = (name : String) → lookup_in_scope name s ≡ last_named name none s.decl_list

last_named-append :
    (name : String) (before : Option NamedDecl) (ds : List NamedDecl) (d : NamedDecl)
    → last_named name before (ds ++ d ∷ [])
      ≡ (if str_eq d.name name then some d else last_named name before ds)
unfolding last_named
last_named-append name before [] d = refl
last_named-append name before (e ∷ ds) d =
    last_named-append name (if str_eq e.name name then some e else before) ds d

pub new_scope-IsIndexed : (flags : ℕ) → IsIndexed (new_scope flags)
unfolding new_scope lookup_in_scope last_named Maps.lookup
new_scope-IsIndexed flags name = refl

put_decl-IsIndexed : (d : NamedDecl) (s : Scope) → IsIndexed s → IsIndexed (put_decl d s)
unfolding put_decl lookup_in_scope
put_decl-IsIndexed d s ok name =
    rw (Maps.lookup-insert, last_named-append) (ground (arith, ok name))

-- Both ways of adding keep the table in step with the list.
pub add_decl-IsIndexed :
    (d : Option NamedDecl) (s : Scope) → IsIndexed s → IsIndexed (add_decl d s).0
unfolding add_decl
add_decl-IsIndexed none s ok name = ok name
add_decl-IsIndexed (some d) s ok name = elim (Option-cases (Maps.lookup d.name s.declarations)) [
  | inl new ↦ ground (arith, put_decl-IsIndexed d s ok name)
  | inr (e, old) ↦ ground (arith, ok name)
]

pub add_decl_allow_redeclaration-IsIndexed :
    (d : Option NamedDecl) (s : Scope) → IsIndexed s → IsIndexed (add_decl_allow_redeclaration d s)
unfolding add_decl_allow_redeclaration
add_decl_allow_redeclaration-IsIndexed none s ok = ok
add_decl_allow_redeclaration-IsIndexed (some d) s ok = put_decl-IsIndexed d s ok

abbrev pub is_none : Option NamedDecl → Bool
is_none none = true
is_none (some d) = false

add_decl_new :
    (d : NamedDecl) (s : Scope)
    → lookup_in_scope d.name s ≡ none
    → add_decl (some d) s ≡ (put_decl d s, true)
unfolding add_decl lookup_in_scope
add_decl_new d s h = ground arith

add_decl_old :
    (d e : NamedDecl) (s : Scope)
    → lookup_in_scope d.name s ≡ some e
    → add_decl (some d) s ≡ (s, false)
unfolding add_decl lookup_in_scope
add_decl_old d e s h = ground arith

-- Adding to the innermost scope is refused exactly if the scope has the name, and then the scope stays
-- as it is, its list included. Otherwise the declaration is last in the list, the flags stay, the name
-- leads to the declaration, and every other name where it led before.
pub lookup-add_decl :
    (d : NamedDecl) (s : Scope) (parents : List Scope) (name : String)
    → let (s', added) = add_decl (some d) s in
      (added ≡ is_none (lookup_in_scope d.name s))
      × (lookup name (s' ∷ parents)
          ≡ (if added && str_eq d.name name then some d else lookup name (s ∷ parents)))
      × (s' ≡ (if added then s' else s))
      × (s'.decl_list ≡ (if added then s.decl_list ++ d ∷ [] else s.decl_list))
      × (s'.flags ≡ s.flags)
unfolding put_decl lookup lookup_in_scope
lookup-add_decl d s parents name = elim (Option-cases (lookup_in_scope d.name s)) [
  | inl new ↦
      rw (new, add_decl_new d s new)
        (refl, ground (arith, Maps.lookup-insert d.name name d s.declarations), refl, refl, refl)
  | inr (e, old) ↦ rw (old, add_decl_old d e s old) (refl, refl, refl, refl, refl)
]
