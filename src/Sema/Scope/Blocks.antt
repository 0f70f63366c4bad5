-- ===== src/Sema/Scope/Blocks.antt =====
-- Sequences of scope operations: nesting, and what a chain of scopes makes visible.
use Prim.Native.String.{String}
use text.Mathlib.Text.{◌==◌ as str_eq}
use block_type.Prelude.{
  ℕ, ◌≡◌, ◌∙◌, refl, ap, Option, none, some, List, [], ◌∷◌, ◌++◌, All, arith, if◌then◌else◌,
}
use block_type.Sema.Decls.{NamedDecl}
use block_type.Sema.Scope.{
  Scope, new_scope, add_decl, add_decl_allow_redeclaration, lookup_in_scope, lookup, push_scope,
  pop_scope,
}
use block_type.Sema.Scope.Tables.{
  last_named, IsIndexed, new_scope-IsIndexed, add_decl-IsIndexed,
  add_decl_allow_redeclaration-IsIndexed,
}

pub data ScopeOp : Type 0 where
  push : ℕ → ScopeOp
  pop : ScopeOp
  declare : NamedDecl → ScopeOp
  redeclare : NamedDecl → ScopeOp

-- A declaration goes to the innermost scope, if there is one.
unfoldable pub apply : ScopeOp → List Scope → List Scope
apply (push flags) chain = push_scope flags chain
apply pop chain = pop_scope chain
apply (declare d) [] = []
apply (declare d) (s ∷ parents) = (add_decl (some d) s).0 ∷ parents
apply (redeclare d) [] = []
apply (redeclare d) (s ∷ parents) = add_decl_allow_redeclaration (some d) s ∷ parents

unfoldable pub run : List ScopeOp → List Scope → List Scope
run [] chain = chain
run (op ∷ ops) chain = run ops (apply op chain)

run-append :
    (xs ys : List ScopeOp) (chain : List Scope) → run (xs ++ ys) chain ≡ run ys (run xs chain)
unfolding run
run-append [] ys chain = refl
run-append (x ∷ xs) ys chain = run-append xs ys (apply x chain)

-- Every `pop` closes a `push` of the sequence, and every `push` is closed.
pub data Balanced : List ScopeOp → Type 0 where
  done : Balanced []
  one : (d : NamedDecl) (ops : List ScopeOp) → Balanced ops → Balanced (declare d ∷ ops)
  again : (d : NamedDecl) (ops : List ScopeOp) → Balanced ops → Balanced (redeclare d ∷ ops)
  block :
      (flags : ℕ) (body rest : List ScopeOp)
      → Balanced body
      → Balanced rest
      → Balanced (push flags ∷ body ++ pop ∷ rest)

-- Such a sequence reaches the innermost scope alone.
Balanced-run :
    {ops : List ScopeOp}
    → Balanced ops
    → (s : Scope) (parents : List Scope) → (s' : Scope) × (run ops (s ∷ parents) ≡ s' ∷ parents)
unfolding run apply push_scope pop_scope
Balanced-run done s parents = (s, refl)
Balanced-run (one d ops b) s parents = Balanced-run b (add_decl (some d) s).0 parents
Balanced-run (again d ops b) s parents =
    Balanced-run b (add_decl_allow_redeclaration (some d) s) parents
Balanced-run (block flags body rest b c) s parents =
    let (inner, e) = Balanced-run b (new_scope flags) (s ∷ parents) in
    let (s', e') = Balanced-run c s parents in
    (
      s',
      run-append body (pop ∷ rest) (new_scope flags ∷ s ∷ parents)
          ∙ ap (λ (c : List Scope). run (pop ∷ rest) c) e
          ∙ e',
    )

-- A block that opens a scope, runs a balanced sequence and closes the scope leaves the chain of
-- scopes as it was, so every name means what it meant.
pub block_restores :
    (flags : ℕ) (body : List ScopeOp) (chain : List Scope)
    → Balanced body
    → run (push flags ∷ body ++ pop ∷ []) chain ≡ chain
unfolding run apply push_scope pop_scope
block_restores flags body chain b =
    let (inner, e) = Balanced-run b (new_scope flags) chain in
    run-append body (pop ∷ []) (new_scope flags ∷ chain)
    ∙ ap (λ (c : List Scope). run (pop ∷ []) c) e

-- All declarations of a chain, from the outermost scope to the innermost, each in its order.
unfoldable pub visible : List Scope → List NamedDecl
visible [] = []
visible (s ∷ parents) = visible parents ++ s.decl_list

last_named-append :
    (name : String) (before : Option NamedDecl) (xs ys : List NamedDecl)
    → last_named name before (xs ++ ys) ≡ last_named name (last_named name before xs) ys
unfolding last_named
last_named-append name before [] ys = refl
last_named-append name before (x ∷ xs) ys =
    last_named-append name (if str_eq x.name name then some x else before) xs ys

or_before : Option NamedDecl → Option NamedDecl → Option NamedDecl
or_before none before = before
or_before (some d) before = some d

last_named-before :
    (name : String) (before : Option NamedDecl) (ds : List NamedDecl)
    → last_named name before ds ≡ or_before (last_named name none ds) before
unfolding last_named or_before
last_named-before name before [] = refl
last_named-before name before (d ∷ ds) = ground (
  arith,
  last_named-before name (if str_eq d.name name then some d else before) ds,
  last_named-before name (if str_eq d.name name then some d else none) ds,
)

lookup_cons :
    (name : String) (s : Scope) (parents : List Scope)
    → lookup name (s ∷ parents) ≡ or_before (lookup_in_scope name s) (lookup name parents)
unfolding lookup or_before
lookup_cons name s parents = ground arith

-- In a chain of scopes whose tables are in step with their lists, looking a name up finds the last
-- declaration of that name among all declarations of the chain, outer scopes first: inner
-- declarations shadow outer ones, and later ones earlier ones.
pub lookup-visible :
    (name : String) (chain : List Scope)
    → All IsIndexed chain
    → lookup name chain ≡ last_named name none (visible chain)
unfolding visible last_named
lookup-visible name [] ok = unfold lookup in refl
lookup-visible name (s ∷ parents) ok =
    rw (last_named-append name none (visible parents) s.decl_list) (
      rw (last_named-before name (last_named name none (visible parents)) s.decl_list)
        (rw (lookup_cons name s parents, ok.0 name, lookup-visible name parents ok.1)))

pub apply-IsIndexed :
    (op : ScopeOp) (chain : List Scope) → All IsIndexed chain → All IsIndexed (apply op chain)
unfolding apply push_scope pop_scope
apply-IsIndexed (push flags) chain ok = (new_scope-IsIndexed flags, ok)
apply-IsIndexed pop [] ok = ok
apply-IsIndexed pop (s ∷ parents) ok = ok.1
apply-IsIndexed (declare d) [] ok = ok
apply-IsIndexed (declare d) (s ∷ parents) ok = (add_decl-IsIndexed (some d) s ok.0, ok.1)
apply-IsIndexed (redeclare d) [] ok = ok
apply-IsIndexed (redeclare d) (s ∷ parents) ok =
    (add_decl_allow_redeclaration-IsIndexed (some d) s ok.0, ok.1)

pub run-IsIndexed :
    (ops : List ScopeOp) (chain : List Scope) → All IsIndexed chain → All IsIndexed (run ops chain)
unfolding run
run-IsIndexed [] chain ok = ok
run-IsIndexed (op ∷ ops) chain ok = run-IsIndexed ops (apply op chain) (apply-IsIndexed op chain ok)
