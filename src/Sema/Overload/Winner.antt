-- ===== src/Sema/Overload/Winner.antt =====
-- `resolve` finds the best viable candidate where there is one, and the constraint checker never has a
-- say.
use block_type.Prelude.{
  subst, ℕ, ◌≡◌, refl, sym, ap, ◌∙◌, Bool, true, false, Option, none, some, List, [], ◌∷◌, ◌++◌,
  arith, ==_iff, if◌then◌else◌, length, All, Bool-cases, inl, inr,
}
use block_type.Prelude.Int.{ℤ, pos, negsuc, is_neg, is_pos, is_zero}
use block_type.Sema.Types.{QualType, Classes}
use block_type.Sema.Overload.{OverloadCandidate, compare_candidates}
use block_type.Sema.Overload.Compare.{compare_candidates-flip}
use block_type.Sema.Overload.Viable.{HasArgs, FailedIsOut, viable_candidates-length}
use block_type.Sema.Overload.Resolve.{
  Numbered, viable_candidates, select_loop, ties, constraint_loop, break_by_constraints, answer,
  finish, resolve_among, resolve,
}

-- Where no other candidate ties with the best, the third pass changes nothing.
constraint_loop_idle :
    (checker : ℕ → ℕ → ℤ) (best : Numbered) (cs : List Numbered)
    → ties best cs ≡ false
    → constraint_loop checker best cs ≡ some best
unfolding constraint_loop ties
constraint_loop_idle checker best [] h = refl
constraint_loop_idle checker best (c ∷ cs) h = ground (arith, constraint_loop_idle checker best cs)

finish_ignores_checker :
    (checker : Option (ℕ → ℕ → ℤ)) (viable : List Numbered) (s : Numbered × Bool)
    → finish checker viable s ≡ finish none viable s
unfolding finish break_by_constraints
finish_ignores_checker none viable s = refl
finish_ignores_checker (some checker) viable (best, amb) = elim (Bool-cases (ties best viable)) [
  | inl t ↦ ground arith
  | inr f ↦ ground (arith, constraint_loop_idle checker best viable f)
]

resolve_among_ignores_checker :
    (checker : Option (ℕ → ℕ → ℤ)) (viable : List Numbered)
    → resolve_among checker viable ≡ resolve_among none viable
unfolding resolve_among
resolve_among_ignores_checker checker [] = refl
resolve_among_ignores_checker checker (c ∷ []) = refl
resolve_among_ignores_checker checker (c ∷ d ∷ cs) =
    finish_ignores_checker checker (c ∷ d ∷ cs) (select_loop c false (d ∷ cs))

-- Whatever the constraint checker says of the templates, `resolve` answers as it does without one: the
-- comparison of constraints is never what decides.
pub resolve_ignores_checker :
    (classes : Classes) (checker : Option (ℕ → ℕ → ℤ)) (args : List QualType)
    (cs : List OverloadCandidate)
    → resolve classes checker args cs ≡ resolve classes none args cs
unfolding resolve
resolve_ignores_checker classes checker args cs =
    resolve_among_ignores_checker checker (viable_candidates classes args cs)

abbrev Beats : Numbered → Numbered → Type 0
Beats c d = is_neg (compare_candidates c.1 d.1) ≡ true

beaten :
    (n : ℕ) (c d : Numbered)
    → HasArgs n c
    → HasArgs n d
    → Beats c d
    → is_pos (compare_candidates d.1 c.1) ≡ true
beaten n c d hc hd b = sym (compare_candidates-flip c.1 d.1 (hc ∙ sym hd)) ∙ b

not_tied : (z : ℤ) → is_neg z ≡ true → (is_zero z ≡ false) × (is_pos z ≡ false)
not_tied (pos n) h = cc h
not_tied (negsuc n) h = (refl, refl)

-- The winner keeps its place,
keeps :
    (c : Numbered) (amb : Bool) (cs : List Numbered)
    → All (Beats c) cs
    → select_loop c amb cs ≡ (c, amb)
unfolding select_loop
keeps c amb [] h = refl
keeps c amb (d ∷ cs) (b, h) =
    let t = not_tied (compare_candidates c.1 d.1) b in rw (t.0, t.1) (keeps c amb cs h)

-- loses it to one that beats it,
loses :
    (c d : Numbered) (amb : Bool) (cs : List Numbered)
    → is_pos (compare_candidates c.1 d.1) ≡ true
    → select_loop c amb (d ∷ cs) ≡ select_loop d false cs
unfolding select_loop
loses c d amb cs h = rw h refl

stays :
    (c d : Numbered) (amb : Bool) (cs : List Numbered)
    → is_pos (compare_candidates c.1 d.1) ≡ false
    → select_loop c amb (d ∷ cs)
      ≡ select_loop c (if is_zero (compare_candidates c.1 d.1) then true else amb) cs
unfolding select_loop
stays c d amb cs h = rw h refl

-- and takes it from any other when its turn comes.
takes :
    (n : ℕ) (c best : Numbered) (amb : Bool) (front back : List Numbered)
    → HasArgs n c
    → HasArgs n best
    → Beats c best
    → All (HasArgs n) front
    → All (Beats c) front
    → All (Beats c) back
    → select_loop best amb (front ++ c ∷ back) ≡ (c, false)
takes n c best amb [] back hc hb b hf bf bb =
    loses best c amb back (beaten n c best hc hb b) ∙ keeps c false back bb
takes n c best amb (d ∷ front) back hc hb b (hd, hf) (bd, bf) bb =
    elim (Bool-cases (is_pos (compare_candidates best.1 d.1))) [
      | inl up ↦
          loses best d amb (front ++ c ∷ back) up ∙ takes n c d false front back hc hd bd hf bf bb
      | inr stay ↦
          stays best d amb (front ++ c ∷ back) stay ∙ takes n c best _ front back hc hb b hf bf bb
    ]

ties-append :
    (c : Numbered) (front back : List Numbered)
    → All (Beats c) front
    → All (Beats c) back
    → ties c (front ++ c ∷ back) ≡ false
unfolding ties
ties-append c [] [] bf bb = ground (arith, ==_iff c.0 c.0)
ties-append c [] (d ∷ back) bf (b, bb) =
    ground (arith, not_tied (compare_candidates c.1 d.1) b, ties-append c [] back tt bb)
ties-append c (d ∷ front) back (b, bf) bb =
    ground (arith, not_tied (compare_candidates c.1 d.1) b, ties-append c front back bf bb)

finish-best :
    (checker : Option (ℕ → ℕ → ℤ)) (viable : List Numbered) (c : Numbered)
    → ties c viable ≡ false
    → finish checker viable (c, false) ≡ answer c
unfolding finish break_by_constraints
finish-best none viable c h = ground arith
finish-best (some checker) viable c h = ground (arith, constraint_loop_idle checker c viable h)

resolve_among-several :
    (checker : Option (ℕ → ℕ → ℤ)) (d c : Numbered) (front back : List Numbered)
    → resolve_among checker (d ∷ front ++ c ∷ back)
      ≡ finish checker (d ∷ front ++ c ∷ back) (select_loop d false (front ++ c ∷ back))
unfolding resolve_among
resolve_among-several checker d c [] back = refl
resolve_among-several checker d c (e ∷ front) back = refl

resolve_among-winner :
    (n : ℕ) (checker : Option (ℕ → ℕ → ℤ)) (c : Numbered) (front back : List Numbered)
    → HasArgs n c
    → All (HasArgs n) front
    → All (Beats c) front
    → All (Beats c) back
    → resolve_among checker (front ++ c ∷ back) ≡ answer c
unfolding resolve_among
resolve_among-winner n checker c [] [] hc hf bf bb = refl
resolve_among-winner n checker c [] (d ∷ back) hc hf bf bb =
    ap (finish checker (c ∷ d ∷ back)) (keeps c false (d ∷ back) bb)
    ∙ finish-best checker (c ∷ d ∷ back) c (ties-append c [] (d ∷ back) tt bb)
resolve_among-winner n checker c (d ∷ front) back hc (hd, hf) (bd, bf) bb =
    resolve_among-several checker d c front back
    ∙ ap (finish checker (d ∷ front ++ c ∷ back)) (takes n c d false front back hc hd bd hf bf bb)
    ∙ finish-best checker (d ∷ front ++ c ∷ back) c (ties-append c (d ∷ front) back (bd, bf) bb)

All-front {ℓ κ} :
    {A : Type ℓ} (P : A → Type κ) (front : List A) (c : A) (back : List A)
    → All P (front ++ c ∷ back)
    → All P front × P c
All-front P [] c back (h, rest) = (tt, h)
All-front P (d ∷ front) c back (h, rest) =
    let found = All-front P front c back rest in ((h, found.0), found.1)

-- Where one viable candidate compares better than every other viable candidate, `resolve` answers with
-- it, whatever the order of the candidates: deleted if it is a deleted method, success otherwise. The
-- candidates whose deduction failed must not be marked viable.
pub resolve-winner :
    (classes : Classes) (checker : Option (ℕ → ℕ → ℤ)) (args : List QualType)
    (cs : List OverloadCandidate) (front : List Numbered) (c : Numbered) (back : List Numbered)
    → All FailedIsOut cs
    → viable_candidates classes args cs ≡ front ++ c ∷ back
    → All (Beats c) front
    → All (Beats c) back
    → resolve classes checker args cs ≡ answer c
unfolding resolve viable_candidates
resolve-winner classes checker args cs front c back out split bf bb =
    let lengths = All-front (HasArgs (length args)) front c back (
      subst (All (HasArgs (length args))) split (viable_candidates-length classes args 0 cs out)) in
    ap (resolve_among checker) split
    ∙ resolve_among-winner (length args) checker c front back lengths.1 lengths.0 bf bb
