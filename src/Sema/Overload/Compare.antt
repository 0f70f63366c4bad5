-- ===== src/Sema/Overload/Compare.antt =====
-- `OverloadCandidate::compare` is antisymmetric, for candidates with as many arguments.
use block_type.Prelude.{
  ℕ, zero, suc, ◌≡◌, refl, sym, ap, ◌∙◌, Bool, true, false, Option, none, some, List, [], ◌∷◌, max,
  arith, length, Option-cases, inl, inr,
}
use native.Mathlib.Nat.{max_comm}
use block_type.Prelude.Int.{ℤ, is_neg, is_pos, is_zero}
use block_type.Sema.Conversion.Ranks.{ConversionRank, ImplicitConversionSequence}
use block_type.Sema.Conversion.Order.{compare_implicit-flip}
use block_type.Sema.Overload.{
  FunctionDecl, OverloadCandidate, Votes, vote, cast, first_rank, first_sequence, rest_of,
  vote_loop, variadic_of, break_variadic, break_tie, verdict, compare_functions, compare_candidates,
}

vote-flip :
    (r q : ConversionRank) (s t : Option ImplicitConversionSequence)
    → is_neg (vote r q s t) ≡ is_pos (vote q r t s)
unfolding vote
vote-flip r q none none = ground arith
vote-flip r q none (some t) = ground arith
vote-flip r q (some s) none = ground arith
vote-flip r q (some s) (some t) = ground (arith, compare_implicit-flip s t)

flip : Votes → Votes
flip v = record { this_better = v.other_better; other_better = v.this_better }

cast-flip :
    (r q : ConversionRank) (s t : Option ImplicitConversionSequence) (v : Votes)
    → cast (vote q r t s) (flip v) ≡ flip (cast (vote r q s t) v)
unfolding cast flip
cast-flip r q s t v = ground (arith, vote-flip r q s t, vote-flip q r t s)

vote_loop-flip :
    (n : ℕ) (rs qs : List ConversionRank) (ss ts : List ImplicitConversionSequence) (v : Votes)
    → length rs ≡ length qs
    → vote_loop n qs rs ts ss (flip v) ≡ flip (vote_loop n rs qs ss ts v)
unfolding vote_loop rest_of first_rank
vote_loop-flip zero rs qs ss ts v e = refl
vote_loop-flip (suc n) [] [] ss ts v e = refl
vote_loop-flip (suc n) [] (q ∷ qs) ss ts v e = absurd (omega arith)
vote_loop-flip (suc n) (r ∷ rs) [] ss ts v e = absurd (omega arith)
vote_loop-flip (suc n) (r ∷ rs) (q ∷ qs) ss ts v e =
    let s = first_sequence ss in
    let t = first_sequence ts in
    ap (vote_loop n qs rs (rest_of ts) (rest_of ss)) (cast-flip r q s t v)
    ∙ vote_loop-flip n rs qs (rest_of ss) (rest_of ts) (cast (vote r q s t) v) (omega arith)

break_variadic-flip :
    (a b : Option Bool)
    → (is_neg (break_variadic a b) ≡ is_pos (break_variadic b a))
      × (is_zero (break_variadic a b) ≡ is_zero (break_variadic b a))
unfolding break_variadic
break_variadic-flip none none = (refl, refl)
break_variadic-flip none (some true) = (refl, refl)
break_variadic-flip none (some false) = (refl, refl)
break_variadic-flip (some true) none = (refl, refl)
break_variadic-flip (some false) none = (refl, refl)
break_variadic-flip (some true) (some true) = (refl, refl)
break_variadic-flip (some true) (some false) = (refl, refl)
break_variadic-flip (some false) (some true) = (refl, refl)
break_variadic-flip (some false) (some false) = (refl, refl)

break_tie-flip :
    (f g : FunctionDecl) (t u : Option ℕ) → is_neg (break_tie f g t u) ≡ is_pos (break_tie g f u t)
unfolding break_tie
break_tie-flip f g t u =
    ground (arith, break_variadic-flip (variadic_of f.type.ty) (variadic_of g.type.ty))

verdict-flip :
    (v w : Votes) (z y : ℤ)
    → flip v ≡ w
    → is_neg z ≡ is_pos y
    → is_neg (verdict v z) ≡ is_pos (verdict w y)
unfolding verdict flip
verdict-flip v w z y e f =
    let a : v.other_better ≡ w.this_better = ap (λ (u : Votes). u.this_better) e in
    let b : v.this_better ≡ w.other_better = ap (λ (u : Votes). u.other_better) e in ground arith

compare_functions-flip :
    (f g : FunctionDecl) (c d : OverloadCandidate)
    → length c.arg_ranks ≡ length d.arg_ranks
    → is_neg (compare_functions f g c d) ≡ is_pos (compare_functions g f d c)
unfolding compare_functions flip
compare_functions-flip f g c d e =
    let start : Votes = record { this_better = false; other_better = false } in
    let m = max (length f.params) (length g.params) in
    let m' = max (length g.params) (length f.params) in
    let loop : ℕ → Votes = λ (n : ℕ).
      vote_loop n d.arg_ranks c.arg_ranks d.conversion_sequences c.conversion_sequences start in
    let turned : loop m'
        ≡ flip (
            vote_loop m c.arg_ranks d.arg_ranks c.conversion_sequences d.conversion_sequences
              start) =
      ap loop (max_comm (length g.params) (length f.params))
      ∙ vote_loop-flip m c.arg_ranks d.arg_ranks c.conversion_sequences d.conversion_sequences start
          e in
    verdict-flip _ _ (break_tie f g c.template d.template) (break_tie g f d.template c.template)
      (sym turned) (break_tie-flip f g c.template d.template)

-- Of two candidates with as many arguments, the first is better than the second exactly when the
-- second, asked in its turn, is worse than the first.
pub compare_candidates-flip :
    (c d : OverloadCandidate)
    → length c.arg_ranks ≡ length d.arg_ranks
    → is_neg (compare_candidates c d) ≡ is_pos (compare_candidates d c)
unfolding compare_candidates
compare_candidates-flip c d e = elim (Option-cases c.function_decl) [
  | inl a ↦ elim (Option-cases d.function_decl) [ inl b ↦ ground arith | inr (g, b) ↦ ground arith ]
  | inr (f, a) ↦ elim (Option-cases d.function_decl) [
    | inl b ↦ ground arith
    | inr (g, b) ↦ ground (arith, compare_functions-flip f g c d e)
  ]
]
