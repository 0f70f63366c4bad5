-- ===== src/Query/Marks/Settled.antt =====
-- What the marks mean: green if a fingerprint is recorded for all that a node needs.
use block_type.Prelude.{
  ℕ, ◌≡◌, ◌⊎◌, inl, inr, refl, ◌∙◌, Bool, true, false, not, Option, some, List, [], ◌∷◌, ◌==◌,
  if◌then◌else◌, arith, Bool-cases,
}
use block_type.Prelude.Maps.{nat_key, insert, lookup-insert}
use block_type.Query.Graph.{
  DependencyGraph, contains, found, get_dependencies, get_fingerprint, has_fingerprint_changed,
}
use block_type.Query.Graph.Reach.{Reach, direct, next}
use block_type.Query.Marks.{MarkColor, green, red, unknown, Marks, get_mark, deps_green}

Reach-cons :
    (ends : ℕ → List ℕ) (a b c : ℕ) → found b (ends a) ≡ true → Reach ends b c → Reach ends a c
Reach-cons ends a b c h (direct _ h') = next b c (direct b h) h'
Reach-cons ends a b c h (next m _ r h') = next m c (Reach-cons ends a b m h r) h'

pub mark-cases : (c : MarkColor) → (c ≡ green) ⊎ ((c ≡ red) ⊎ (c ≡ unknown))
mark-cases green = inl refl
mark-cases red = inr (inl refl)
mark-cases unknown = inr (inr refl)

module _ (g : DependencyGraph) where
  abbrev pub ends : ℕ → List ℕ
  ends = get_dependencies g

  abbrev pub recorded : ℕ → Bool
  recorded v = contains v g.fingerprints

  -- A node needs itself and all that it depends on.
  abbrev pub Needs : ℕ → ℕ → Type 0
  Needs v w = (v ≡ w) ⊎ Reach ends v w

  abbrev pub AllRecorded : ℕ → Type 0
  AllRecorded v = (w : ℕ) → Needs v w → recorded w ≡ true

  abbrev pub Missing : ℕ → Type 0
  Missing v = (w : ℕ) × Needs v w × (recorded w ≡ false)

  pub Needs-first : (a c : ℕ) → Reach ends a c → (b : ℕ) × (found b (ends a) ≡ true) × Needs b c
  Needs-first a c (direct _ h) = (c, h, inl refl)
  Needs-first a c (next m _ r h) =
      let (b, e, needs) = Needs-first a m r in
      elim needs [
        | inl same ↦ (b, e, inr (direct c (rw same h)))
        | inr r' ↦ (b, e, inr (next m c r' h))
      ]

  pub Needs-cons : (a b c : ℕ) → found b (ends a) ≡ true → Needs b c → Needs a c
  Needs-cons a b c e (inl same) = inr (direct c (rw same at e))
  Needs-cons a b c e (inr r) = inr (Reach-cons ends a b c e r)

  -- The two colours of a result or a mark.
  abbrev pub Says : MarkColor → ℕ → Type 0
  Says green v = AllRecorded v
  Says red v = Missing v
  Says unknown v = Unit

  abbrev pub IsSettled : Marks → Type 0
  IsSettled marks = (v : ℕ) → Says (get_mark marks v) v

  get_mark-insert :
      (k v : ℕ) (c : MarkColor) (marks : Marks)
      → get_mark (insert k c marks) v ≡ (if k == v then c else get_mark marks v)
  unfolding get_mark
  get_mark-insert k v c marks = ground (arith, lookup-insert k v c marks)

  pub insert-IsSettled :
      (k : ℕ) (c : MarkColor) (marks : Marks)
      → Says c k
      → IsSettled marks
      → IsSettled (insert k c marks)
  insert-IsSettled k c marks says ok v =
      rw (get_mark-insert k v c marks) (elim (Bool-cases (k == v)) [
        | inl here ↦ let same : k ≡ v = ground arith in rw here (rw same at says)
        | inr other ↦ rw other (ok v)
      ])

  -- The comparison finds a change exactly if no fingerprint is recorded.
  pub fingerprint_compared :
      (v : ℕ) → has_fingerprint_changed g v (get_fingerprint g v) ≡ not (recorded v)
  unfolding has_fingerprint_changed get_fingerprint contains
  fingerprint_compared v = ground arith

  -- What the loop over `deps` says of them.
  unfoldable pub DepsSay : Bool → List ℕ → Type 0
  DepsSay true deps = (d : ℕ) → found d deps ≡ true → AllRecorded d
  DepsSay false deps = (d : ℕ) × (found d deps ≡ true) × Missing d

  -- The result of a call for `v`, which ends.
  abbrev pub Answers : ℕ → Option (MarkColor × Marks) → Type 0
  Answers v result =
      (c : MarkColor) × (marks' : Marks) × (result ≡ some (c, marks'))
      × ((c ≡ green) ⊎ (c ≡ red))
      × Says c v
      × IsSettled marks'

  DepsSay-cons :
      (b : Bool) (d : ℕ) (deps : List ℕ) → AllRecorded d → DepsSay b deps → DepsSay b (d ∷ deps)
  unfolding DepsSay found
  DepsSay-cons true d deps all say = λ e h. elim (Bool-cases (d == e)) [
    | inl here ↦ let same : d ≡ e = ground arith in rw same at all
    | inr other ↦ say e (ground arith)
  ]
  DepsSay-cons false d deps all say = (say.0, ground (arith, say.1), say.2)

  DepsSay-here : (d : ℕ) (deps : List ℕ) → Missing d → DepsSay false (d ∷ deps)
  unfolding DepsSay found
  DepsSay-here d deps missing = (d, ground arith, missing)

  module _ (recur : Marks → ℕ → Option (MarkColor × Marks)) (marks : Marks) (d : ℕ)
      (deps : List ℕ) where
    deps_green-red :
        get_mark marks d ≡ red → deps_green recur marks (d ∷ deps) ≡ some (false, marks)
    unfolding deps_green
    deps_green-red e = rw (deps_green, e) refl

    deps_green-green :
        get_mark marks d ≡ green → deps_green recur marks (d ∷ deps) ≡ deps_green recur marks deps
    unfolding deps_green
    deps_green-green e = rw (deps_green, e) refl

    deps_green-call_red :
        (marks' : Marks)
        → get_mark marks d ≡ unknown
        → recur marks d ≡ some (red, marks')
        → deps_green recur marks (d ∷ deps) ≡ some (false, marks')
    unfolding deps_green
    deps_green-call_red marks' e e' = rw (deps_green, e, e') refl

    deps_green-call_green :
        (marks' : Marks)
        → get_mark marks d ≡ unknown
        → recur marks d ≡ some (green, marks')
        → deps_green recur marks (d ∷ deps) ≡ deps_green recur marks' deps
    unfolding deps_green
    deps_green-call_green marks' e e' = rw (deps_green, e, e') refl

  unfoldable pub DepsAnswer : List ℕ → Option (Bool × Marks) → Type 0
  DepsAnswer deps result =
      (b : Bool) × (marks' : Marks) × (result ≡ some (b, marks'))
      × DepsSay b deps
      × IsSettled marks'

  DepsAnswer-cons :
      (d : ℕ) (deps : List ℕ) (result result' : Option (Bool × Marks))
      → AllRecorded d
      → result' ≡ result
      → DepsAnswer deps result
      → DepsAnswer (d ∷ deps) result'
  unfolding DepsAnswer
  DepsAnswer-cons d deps result result' all e (b, marks', e', say, ok) =
      (b, marks', e ∙ e', DepsSay-cons b d deps all say, ok)

  module _ (recur : Marks → ℕ → Option (MarkColor × Marks)) where
    pub deps_green-Answers :
        (deps : List ℕ) (marks : Marks)
        → IsSettled marks
        → ((marks' : Marks) (d : ℕ)
            → IsSettled marks'
            → found d deps ≡ true
            → Answers d (recur marks' d))
        → DepsAnswer deps (deps_green recur marks deps)
    unfolding deps_green DepsSay DepsAnswer found
    deps_green-Answers [] marks ok calls = (true, marks, refl, (λ d h. absurd cc), ok)
    deps_green-Answers (d ∷ deps) marks ok calls =
        let later : (m : Marks) → IsSettled m → DepsAnswer deps (deps_green recur m deps) =
          λ m ok'. deps_green-Answers deps m ok' (λ m' e okm h. calls m' e okm (ground arith)) in
        elim (mark-cases (get_mark marks d)) [
          | inl old ↦
              DepsAnswer-cons d deps _ _ (rw old at (ok d))
                (deps_green-green recur marks d deps old) (later marks ok)
          | inr (inl old) ↦ (
            false,
            marks,
            deps_green-red recur marks d deps old,
            DepsSay-here d deps (rw old at (ok d)),
            ok,
          )
          | inr (inr new) ↦
              let (c, marks', e, which, says, ok') = calls marks d ok (ground arith) in
              elim which [
                | inl is_green ↦
                    DepsAnswer-cons d deps _ _ (rw is_green at says)
                      (deps_green-call_green recur marks d deps marks' new (rw is_green at e))
                      (later marks' ok')
                | inr is_red ↦ (
                  false,
                  marks',
                  deps_green-call_red recur marks d deps marks' new (rw is_red at e),
                  DepsSay-here d deps (rw is_red at says),
                  ok',
                )
              ]
        ]
