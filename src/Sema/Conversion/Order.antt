-- ===== src/Sema/Conversion/Order.antt =====
-- `compare` of conversion sequences orders them: it is the order of a key, kind first, then rank and
-- the three steps.
use block_type.Prelude.{ℕ, ◌+◌, ◌*◌, ◌<◌, ◌≡◌, ◌↔◌, inl, inr, Bool-cases, refl, true, false, arith}
use block_type.Prelude.Int.{ℤ, is_neg, is_pos}
use block_type.Sema.Conversion.Ranks.{
  ConversionRank, rank_value, StandardConversionKind, sub_step_rank, StandardConversionSequence,
  compare_standard, ConversionKind, standard_conversion, user_defined_conversion,
  ellipsis_conversion, kind_priority, ImplicitConversionSequence, is_bad, is_bad_kind,
  compare_same_kind, compare_implicit,
}

unfoldable pub standard_key : StandardConversionSequence → ℕ
standard_key s =
    rank_value s.rank * 125
    + sub_step_rank s.first * 25
    + sub_step_rank s.second * 5
    + sub_step_rank s.third

-- Two sequences without a standard part that is compared have one key.
unfoldable pub key_in : ConversionKind → StandardConversionSequence → ℕ
key_in standard_conversion s = standard_key s
key_in user_defined_conversion s = 1000 + standard_key s
key_in ellipsis_conversion s = 2000
key_in ConversionKind.bad_conversion s = 3000

unfoldable pub key : ImplicitConversionSequence → ℕ
key s = key_in s.kind s.standard

sub_step_rank-lt : (k : StandardConversionKind) → sub_step_rank k < 5
unfolding sub_step_rank
sub_step_rank-lt StandardConversionKind.identity = omega arith
sub_step_rank-lt StandardConversionKind.lvalue_transformation = omega arith
sub_step_rank-lt StandardConversionKind.promotion = omega arith
sub_step_rank-lt StandardConversionKind.conversion = omega arith
sub_step_rank-lt StandardConversionKind.qualification_adjustment = omega arith

rank_value-lt : (r : ConversionRank) → rank_value r < 6
unfolding rank_value
rank_value-lt ConversionRank.exact_match = omega arith
rank_value-lt ConversionRank.promotion = omega arith
rank_value-lt ConversionRank.conversion = omega arith
rank_value-lt ConversionRank.user_defined = omega arith
rank_value-lt ConversionRank.ellipsis = omega arith
rank_value-lt ConversionRank.bad_conversion = omega arith

-- The answer is negative where the first key is smaller, positive where it is larger.
abbrev Decides : ℤ → ℕ → ℕ → Type 0
Decides z m n = ((is_neg z ≡ true) ↔ (m < n)) × ((is_pos z ≡ true) ↔ (n < m))

compare_standard-key :
    (s t : StandardConversionSequence)
    → Decides (compare_standard s t) (standard_key s) (standard_key t)
unfolding compare_standard standard_key
compare_standard-key s t = ground (
  arith,
  sub_step_rank-lt s.first,
  sub_step_rank-lt s.second,
  sub_step_rank-lt s.third,
  sub_step_rank-lt t.first,
  sub_step_rank-lt t.second,
  sub_step_rank-lt t.third,
)

standard_key-lt : (s : StandardConversionSequence) → standard_key s < 1000
unfolding standard_key
standard_key-lt s = omega (
  arith,
  rank_value-lt s.rank,
  sub_step_rank-lt s.first,
  sub_step_rank-lt s.second,
  sub_step_rank-lt s.third,
)

-- What the kinds decide; the standard parts where the kinds are one.
kinds_decide :
    (k l : ConversionKind) (s t : ImplicitConversionSequence)
    → s.kind ≡ k
    → t.kind ≡ l
    → Decides (compare_implicit s t) (key_in k s.standard) (key_in l t.standard)
unfolding compare_implicit is_bad is_bad_kind kind_priority compare_same_kind key_in
kinds_decide standard_conversion l s t e f = ground (
  arith,
  standard_key-lt s.standard,
  standard_key-lt t.standard,
  compare_standard-key s.standard t.standard,
)
kinds_decide user_defined_conversion l s t e f = ground (
  arith,
  standard_key-lt s.standard,
  standard_key-lt t.standard,
  compare_standard-key s.standard t.standard,
)
kinds_decide ellipsis_conversion l s t e f = ground (arith, standard_key-lt t.standard)
kinds_decide ConversionKind.bad_conversion l s t e f = ground (arith, standard_key-lt t.standard)

compare_implicit-key :
    (s t : ImplicitConversionSequence) → Decides (compare_implicit s t) (key s) (key t)
unfolding key
compare_implicit-key s t = kinds_decide s.kind t.kind s t refl refl

-- `compare` of implicit conversion sequences is a consistent order, from the better to the worse: the
-- first is better than the second exactly when the second, asked in its turn, is worse, and a
-- sequence that is not worse than one that is not worse than a third is not worse than the third.
pub compare_implicit_order :
    (s t u : ImplicitConversionSequence)
    → ((is_neg (compare_implicit s t) ≡ true) ↔ (is_pos (compare_implicit t s) ≡ true))
      × (is_pos (compare_implicit s t) ≡ false
          → is_pos (compare_implicit t u) ≡ false
          → is_pos (compare_implicit s u) ≡ false)
compare_implicit_order s t u =
    let st = compare_implicit-key s t in
    let ts = compare_implicit-key t s in
    let tu = compare_implicit-key t u in
    let su = compare_implicit-key s u in
    (
      ground arith,
      λ a b. elim (Bool-cases (is_pos (compare_implicit s u))) [
        | inl worse ↦ absurd (ground arith)
        | inr fine ↦ fine
      ],
    )

-- The two verdicts on two sequences are opposite.
pub compare_implicit-flip :
    (s t : ImplicitConversionSequence)
    → is_neg (compare_implicit s t) ≡ is_pos (compare_implicit t s)
compare_implicit-flip s t = ground (arith, compare_implicit-key s t, compare_implicit-key t s)
