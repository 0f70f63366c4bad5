-- ===== src/Sema/SymbolTable/Ordinary.antt =====
-- Variables and functions: all declarations of a name, in their order.
use Prim.Native.String.{String}
use text.Mathlib.Text.{◌==◌ as str_eq}
use text.Mathlib.TextEquality.{eq_iff}
use mathlib.Core.List.{append-nil, append_assoc}
use block_type.Prelude.{
  ◌≡◌, ◌↔◌, ◌⊎◌, refl, ap, inl, inr, true, List, [], ◌∷◌, ◌++◌, All, arith, length, length-append,
  if◌then◌else◌, Bool-cases,
}
use block_type.Prelude.Maps
use block_type.Prelude.Maps.{string_key}
use block_type.Sema.Decls.{NamedDecl}
use block_type.Sema.SymbolTable.{
  SymbolTable, is_overloadable, redefinition, ordinary_or_empty, add_ordinary_symbol,
  lookup_ordinary,
}

lookup_ordinary-add :
    (d : NamedDecl) (st : SymbolTable) (name : String)
    → lookup_ordinary name (add_ordinary_symbol d st).0
      ≡ (if str_eq d.name name then lookup_ordinary name st ++ d ∷ [] else lookup_ordinary name st)
unfolding lookup_ordinary ordinary_or_empty add_ordinary_symbol
lookup_ordinary-add d st name = ground (
  arith,
  eq_iff d.name name,
  Maps.lookup-insert d.name name (ordinary_or_empty d.name st ++ d ∷ []) st.ordinary_symbols,
)

-- A declaration list added one by one.
unfoldable pub add_all : List NamedDecl → SymbolTable → SymbolTable
add_all [] st = st
add_all (d ∷ ds) st = add_all ds (add_ordinary_symbol d st).0

-- The declarations of a name, in their order.
unfoldable pub named : String → List NamedDecl → List NamedDecl
named name [] = []
named name (d ∷ ds) = let rest = named name ds in if str_eq d.name name then d ∷ rest else rest

-- After any declarations are added, the table lists under each name what it listed before, and then
-- exactly the new declarations of that name in the order in which they came.
pub lookup_ordinary-add_all :
    (ds : List NamedDecl) (st : SymbolTable) (name : String)
    → lookup_ordinary name (add_all ds st) ≡ lookup_ordinary name st ++ named name ds
unfolding add_all named
lookup_ordinary-add_all [] st name = rw append-nil
lookup_ordinary-add_all (d ∷ ds) st name =
    rw (lookup_ordinary-add_all ds (add_ordinary_symbol d st).0 name, lookup_ordinary-add d st name)
      (elim (Bool-cases (str_eq d.name name)) [ inl e ↦ rw (e, append_assoc) | inr e ↦ rw e ])

redefinition_none :
    (d : NamedDecl) (es : List NamedDecl)
    → (redefinition d es ≡ []) ↔ All (λ e. is_overloadable e ≡ true) es
unfolding redefinition
redefinition_none d [] = (λ _. tt, λ _. refl)
redefinition_none d (e ∷ es) = ground (arith, redefinition_none d es)

append_same {ℓ} : {A : Type ℓ} (xs ys : List A) → (xs ++ ys ≡ xs) → ys ≡ []
append_same xs [] h = refl
append_same xs (y ∷ ys) h = absurd (omega (arith, length-append {ℓ} xs (y ∷ ys), ap length h))

-- Nothing is reported exactly if the new declaration is a function or method, or all declarations
-- of its name so far are. (So a function declared behind a variable of its name passes.)
pub add_ordinary_symbol-reports :
    (d : NamedDecl) (st : SymbolTable)
    → ((add_ordinary_symbol d st).0.reports ≡ st.reports) ↔ (
        (is_overloadable d ≡ true)
        ⊎ All (λ e. is_overloadable e ≡ true) (lookup_ordinary d.name st))
unfolding add_ordinary_symbol lookup_ordinary
add_ordinary_symbol-reports d st = (
  λ h. elim (Bool-cases (is_overloadable d)) [
    | inl e ↦ inl e
    | inr e ↦ inr ((redefinition_none d _).0 (append_same st.reports _ (rw e at h)))
  ],
  λ h. elim h [
    | inl e ↦ rw (e, append-nil)
    | inr all ↦ elim (Bool-cases (is_overloadable d)) [
      | inl e ↦ rw (e, append-nil)
      | inr e ↦ rw (e, (redefinition_none d _).1 all, append-nil)
    ]
  ],
)
