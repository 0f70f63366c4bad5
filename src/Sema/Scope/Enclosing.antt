-- ===== src/Sema/Scope/Enclosing.antt =====
-- The nearest enclosing scope of each kind.
use block_type.Prelude.{
  ◌≡◌, ◌↔◌, inl, inr, ap, refl, Bool, true, false, ◌||◌, Option, none, some, if◌then◌else◌, List,
  [], ◌∷◌, ◌++◌, All, arith, Bool-cases,
}
use block_type.Sema.Scope.Flag
use block_type.Sema.Scope.{
  Scope, has_flags, is_function_scope, enclosing_function_scope, enclosing_class_scope,
  enclosing_namespace_scope, enclosing_translation_unit_scope, enclosing_lambda_scope,
  enclosing_template_param_scope,
}

-- `found` is a rest of the chain, its first scope passes the test, and no scope inside it does.
pub record Nearest (test : Scope → Bool) (chain : List Scope) (s : Scope) (found : List Scope)
    : Type 0 where
  pub inner : List Scope
  pub split : chain ≡ inner ++ s ∷ found
  pub passes : test s ≡ true
  pub skipped : All (λ t. test t ≡ false) inner

-- The search that the six functions share.
unfoldable enclosing : (Scope → Bool) → List Scope → Option (List Scope)
enclosing test [] = none
enclosing test (s ∷ parents) = if test s then some (s ∷ parents) else enclosing test parents

enclosing-Nearest :
    (test : Scope → Bool) (chain : List Scope) (s : Scope) (found : List Scope)
    → enclosing test chain ≡ some (s ∷ found)
    → Nearest test chain s found
unfolding enclosing
enclosing-Nearest test [] s found e = absurd (cc)
enclosing-Nearest test (t ∷ chain) s found e = elim (Bool-cases (test t)) [
  | inl h ↦
      let same : t ∷ chain ≡ s ∷ found = ground arith in
      record { inner = []; split = same; passes = cc (h, same); skipped = tt }
  | inr h ↦
      let rest = enclosing-Nearest test chain s found (ground arith) in
      record {
        inner = t ∷ rest.inner;
        split = ap (λ (l : List Scope). t ∷ l) rest.split;
        passes = rest.passes;
        skipped = (h, rest.skipped);
      }
]

Nearest-enclosing :
    (test : Scope → Bool) (inner : List Scope) (s : Scope) (found : List Scope)
    → test s ≡ true
    → All (λ t. test t ≡ false) inner
    → enclosing test (inner ++ s ∷ found) ≡ some (s ∷ found)
unfolding enclosing
Nearest-enclosing test [] s found h skipped = ground arith
Nearest-enclosing test (t ∷ inner) s found h skipped =
    ground (arith, Nearest-enclosing test inner s found h skipped.1)

enclosing-none :
    (test : Scope → Bool) (chain : List Scope)
    → (enclosing test chain ≡ none) ↔ All (λ t. test t ≡ false) chain
unfolding enclosing
enclosing-none test [] = (λ e. tt, λ h. refl)
enclosing-none test (t ∷ chain) = ground (arith, enclosing-none test chain)

-- `result` is the nearest scope of the chain that passes the test, and none if there is none.
abbrev pub Finds : (Scope → Bool) → List Scope → Option (List Scope) → Scope → List Scope → Type 0
Finds test chain result s found =
    ((result ≡ some (s ∷ found)) ↔ Nearest test chain s found)
    × ((result ≡ none) ↔ All (λ t. test t ≡ false) chain)

enclosing-Finds :
    (test : Scope → Bool) (chain : List Scope) (result : Option (List Scope)) (s : Scope)
    (found : List Scope)
    → result ≡ enclosing test chain
    → Finds test chain result s found
enclosing-Finds test chain result s found e = rw e (
  (
    enclosing-Nearest test chain s found,
    λ n. rw n.split (Nearest-enclosing test n.inner s found n.passes n.skipped),
  ),
  enclosing-none test chain,
)

enclosing_function_scope_lem :
    (chain : List Scope) → enclosing_function_scope chain ≡ enclosing (is_function_scope) chain
unfolding enclosing_function_scope enclosing
enclosing_function_scope_lem [] = refl
enclosing_function_scope_lem (s ∷ chain) = ground (arith, enclosing_function_scope_lem chain)

enclosing_class_scope_lem :
    (chain : List Scope)
    → enclosing_class_scope chain ≡ enclosing (has_flags Flag.class_scope) chain
unfolding enclosing_class_scope enclosing
enclosing_class_scope_lem [] = refl
enclosing_class_scope_lem (s ∷ chain) = ground (arith, enclosing_class_scope_lem chain)

enclosing_namespace_scope_lem :
    (chain : List Scope)
    → enclosing_namespace_scope chain ≡ enclosing (has_flags Flag.namespace_scope) chain
unfolding enclosing_namespace_scope enclosing
enclosing_namespace_scope_lem [] = refl
enclosing_namespace_scope_lem (s ∷ chain) = ground (arith, enclosing_namespace_scope_lem chain)

enclosing_translation_unit_scope_lem :
    (chain : List Scope)
    → enclosing_translation_unit_scope chain
      ≡ enclosing (has_flags Flag.translation_unit_scope) chain
unfolding enclosing_translation_unit_scope enclosing
enclosing_translation_unit_scope_lem [] = refl
enclosing_translation_unit_scope_lem (s ∷ chain) =
    ground (arith, enclosing_translation_unit_scope_lem chain)

enclosing_lambda_scope_lem :
    (chain : List Scope)
    → enclosing_lambda_scope chain ≡ enclosing (has_flags Flag.lambda_scope) chain
unfolding enclosing_lambda_scope enclosing
enclosing_lambda_scope_lem [] = refl
enclosing_lambda_scope_lem (s ∷ chain) = ground (arith, enclosing_lambda_scope_lem chain)

enclosing_template_param_scope_lem :
    (chain : List Scope)
    → enclosing_template_param_scope chain ≡ enclosing (has_flags Flag.template_param_scope) chain
unfolding enclosing_template_param_scope enclosing
enclosing_template_param_scope_lem [] = refl
enclosing_template_param_scope_lem (s ∷ chain) =
    ground (arith, enclosing_template_param_scope_lem chain)

abbrev pub is_function : Scope → Bool
is_function t = has_flags Flag.function_prototype_scope t || has_flags Flag.function_body_scope t

-- Each of the six functions returns a scope, with its parents, exactly when it is the nearest one of
-- the chain that has the flag asked for, and null exactly when no scope of the chain has it: for a
-- function one of the two flags of prototypes and bodies, else the flag of classes, of namespaces, of
-- the translation unit, of lambdas or of template parameters.
pub enclosing_scopes_iff :
    (chain : List Scope) (s : Scope) (found : List Scope)
    → Finds is_function chain (enclosing_function_scope chain) s found
      × Finds (has_flags Flag.class_scope) chain (enclosing_class_scope chain) s found
      × Finds (has_flags Flag.namespace_scope) chain (enclosing_namespace_scope chain) s found
      × Finds
          (has_flags Flag.translation_unit_scope)
          chain
          (enclosing_translation_unit_scope chain)
          s
          found
      × Finds (has_flags Flag.lambda_scope) chain (enclosing_lambda_scope chain) s found
      × Finds
          (has_flags Flag.template_param_scope)
          chain
          (enclosing_template_param_scope chain)
          s
          found
unfolding is_function_scope
enclosing_scopes_iff chain s found = (
  enclosing-Finds is_function chain _ s found (enclosing_function_scope_lem chain),
  enclosing-Finds (has_flags Flag.class_scope) chain _ s found (enclosing_class_scope_lem chain),
  enclosing-Finds (has_flags Flag.namespace_scope) chain _ s found
      (enclosing_namespace_scope_lem chain),
  enclosing-Finds (has_flags Flag.translation_unit_scope) chain _ s found
      (enclosing_translation_unit_scope_lem chain),
  enclosing-Finds (has_flags Flag.lambda_scope) chain _ s found (enclosing_lambda_scope_lem chain),
  enclosing-Finds (has_flags Flag.template_param_scope) chain _ s found
      (enclosing_template_param_scope_lem chain),
)
