-- ===== src/Sema/Scope/Expected.antt =====
-- What a sequence of scope operations leaves open, told by blocks and declarations alone.
use Prim.Native.String.{String}
use text.Mathlib.Text.{◌==◌ as str_eq}
use block_type.Prelude.{
  ℕ, ◌≡◌, ◌∙◌, refl, ap, Bool, false, not, ◌&&◌, ◌||◌, Option, none, some, List, [], ◌∷◌, ◌++◌, All,
  arith, map, if◌then◌else◌,
}
use block_type.Sema.Decls.{NamedDecl}
use block_type.Sema.Scope.{
  Scope, new_scope, put_decl, add_decl, add_decl_allow_redeclaration, lookup, push_scope, pop_scope,
}
use block_type.Sema.Scope.Tables.{last_named, IsIndexed, is_none, lookup-add_decl}
use block_type.Sema.Scope.Blocks.{
  ScopeOp, push, pop, declare, redeclare, apply, run, visible, lookup-visible, apply-IsIndexed,
  run-IsIndexed,
}

-- An open block: its flags, and its declarations in their order.
abbrev pub Block : Type 0
Block = ℕ × List NamedDecl

unfoldable pub declares : String → List NamedDecl → Bool
declares name [] = false
declares name (d ∷ ds) = str_eq d.name name || declares name ds

-- A declaration is entered in the innermost block unless that block declares its name; a
-- redeclaration always is.
unfoldable pub expected_step : ScopeOp → List Block → List Block
expected_step (push flags) bs = (flags, []) ∷ bs
expected_step pop [] = []
expected_step pop (b ∷ bs) = bs
expected_step (declare d) [] = []
expected_step (declare d) ((flags, ds) ∷ bs) =
    (flags, if declares d.name ds then ds else ds ++ d ∷ []) ∷ bs
expected_step (redeclare d) [] = []
expected_step (redeclare d) ((flags, ds) ∷ bs) = (flags, ds ++ d ∷ []) ∷ bs

-- The blocks that are open after the operations, the innermost first.
unfoldable pub expected : List ScopeOp → List Block → List Block
expected [] bs = bs
expected (op ∷ ops) bs = expected ops (expected_step op bs)

-- Their declarations, those of outer blocks first.
unfoldable pub in_blocks : List Block → List NamedDecl
in_blocks [] = []
in_blocks ((flags, ds) ∷ bs) = in_blocks bs ++ ds

abbrev pub block_of : Scope → Block
block_of s = (s.flags, s.decl_list)

abbrev pub blocks : List Scope → List Block
blocks chain = map block_of chain

last_named-declares :
    (name : String) (before : Option NamedDecl) (ds : List NamedDecl)
    → is_none (last_named name before ds) ≡ is_none before && not (declares name ds)
unfolding last_named declares
last_named-declares name before [] = ground arith
last_named-declares name before (d ∷ ds) =
    ground (arith, last_named-declares name (if str_eq d.name name then some d else before) ds)

add_decl-block :
    (d : NamedDecl) (s : Scope)
    → IsIndexed s
    → block_of (add_decl (some d) s).0
      ≡ (s.flags, if declares d.name s.decl_list then s.decl_list else s.decl_list ++ d ∷ [])
add_decl-block d s ok =
    let (added, _, _, list, flags) = lookup-add_decl d s [] d.name in
    ground (arith, ok d.name, last_named-declares d.name none s.decl_list)

apply-expected_step :
    (op : ScopeOp) (chain : List Scope)
    → All IsIndexed chain
    → blocks (apply op chain) ≡ expected_step op (blocks chain)
unfolding apply expected_step push_scope pop_scope new_scope add_decl_allow_redeclaration put_decl
apply-expected_step (push flags) chain ok = refl
apply-expected_step pop [] ok = refl
apply-expected_step pop (s ∷ parents) ok = refl
apply-expected_step (declare d) [] ok = refl
apply-expected_step (declare d) (s ∷ parents) ok =
    ap (λ (b : Block). b ∷ blocks parents) (add_decl-block d s ok.0)
apply-expected_step (redeclare d) [] ok = refl
apply-expected_step (redeclare d) (s ∷ parents) ok = refl

run-blocks :
    (ops : List ScopeOp) (chain : List Scope)
    → All IsIndexed chain
    → blocks (run ops chain) ≡ expected ops (blocks chain)
unfolding run expected
run-blocks [] chain ok = refl
run-blocks (op ∷ ops) chain ok =
    run-blocks ops (apply op chain) (apply-IsIndexed op chain ok)
    ∙ ap (expected ops) (apply-expected_step op chain ok)

visible-blocks : (chain : List Scope) → visible chain ≡ in_blocks (blocks chain)
unfolding visible in_blocks
visible-blocks [] = refl
visible-blocks (s ∷ parents) =
    ap (λ (ds : List NamedDecl). ds ++ s.decl_list) (visible-blocks parents)

-- After any sequence of scope operations from the empty chain, the scopes of the chain are the blocks
-- that are open, with their flags and with the declarations that were entered in each, in order, where
-- a declaration is entered unless its block has the name already; and looking a name up finds the last
-- declaration of that name among those of all open blocks, outer blocks first: inner declarations
-- shadow outer ones, and later ones earlier ones.
pub run-expected :
    (ops : List ScopeOp) (name : String)
    → (blocks (run ops []) ≡ expected ops [])
      × (lookup name (run ops []) ≡ last_named name none (in_blocks (expected ops [])))
run-expected ops name =
    let same = run-blocks ops [] tt in
    (
      same,
      lookup-visible name (run ops []) (run-IsIndexed ops [] tt)
          ∙ ap (last_named name none) (visible-blocks (run ops []) ∙ ap in_blocks same),
    )
