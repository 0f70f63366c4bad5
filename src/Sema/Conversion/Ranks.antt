-- ===== src/Sema/Conversion/Ranks.antt =====
-- Conversion sequences of include/blocktype/Sema/Conversion.h, and their `compare` of
-- src/Sema/Conversion.cpp.
use block_type.Prelude.{ℕ, Bool, true, false, not, ◌&&◌, Option, none, some, ltb, if◌then◌else◌}
use block_type.Prelude.Int.{ℤ, pos, negsuc, sub_ℕ, is_zero}

pub data ConversionRank : Type 0 where
  exact_match promotion conversion user_defined ellipsis bad_conversion : ConversionRank

-- `static_cast<unsigned>(Rank)`
unfoldable pub rank_value : ConversionRank → ℕ
rank_value exact_match = 0
rank_value promotion = 1
rank_value conversion = 2
rank_value user_defined = 3
rank_value ellipsis = 4
rank_value bad_conversion = 5

pub data StandardConversionKind : Type 0 where
  identity lvalue_transformation promotion conversion qualification_adjustment :
      StandardConversionKind

unfoldable pub sub_step_rank : StandardConversionKind → ℕ
sub_step_rank identity = 0
sub_step_rank qualification_adjustment = 1
sub_step_rank lvalue_transformation = 2
sub_step_rank StandardConversionKind.promotion = 3
sub_step_rank StandardConversionKind.conversion = 4

pub record StandardConversionSequence : Type 0 where
  pub first : StandardConversionKind
  pub second : StandardConversionKind
  pub third : StandardConversionKind
  pub rank : ConversionRank

abbrev pub identity_sequence : StandardConversionSequence
identity_sequence = record {
  first = identity;
  second = identity;
  third = identity;
  rank = ConversionRank.exact_match;
}

unfoldable pub is_bad_sequence : StandardConversionSequence → Bool
is_bad_sequence s = elim s.rank [ ConversionRank.bad_conversion ↦ true | _ ↦ false ]

-- `StandardConversionSequence::compare`
unfoldable pub compare_standard : StandardConversionSequence → StandardConversionSequence → ℤ
compare_standard s t =
    if ltb (rank_value s.rank) (rank_value t.rank)
    then negsuc 0
    else if ltb (rank_value t.rank) (rank_value s.rank)
    then pos 1
    else let r1 = sub_ℕ (sub_step_rank s.first) (sub_step_rank t.first) in
      let r2 = sub_ℕ (sub_step_rank s.second) (sub_step_rank t.second) in
      let r3 = sub_ℕ (sub_step_rank s.third) (sub_step_rank t.third) in
      if not (is_zero r1)
      then r1
      else if not (is_zero r2)
      then r2
      else if not (is_zero r3)
      then r3
      else pos 0

pub data ConversionKind : Type 0 where
  standard_conversion user_defined_conversion ellipsis_conversion bad_conversion : ConversionKind

unfoldable pub kind_priority : ConversionKind → ℕ
kind_priority standard_conversion = 0
kind_priority user_defined_conversion = 1
kind_priority ellipsis_conversion = 2
kind_priority bad_conversion = 3

pub record ImplicitConversionSequence : Type 0 where
  pub kind : ConversionKind
  pub standard : StandardConversionSequence
  pub user_defined_converter : Option ℕ
  pub rank : ConversionRank

unfoldable pub get_standard : StandardConversionSequence → ImplicitConversionSequence
get_standard s = record {
  kind = standard_conversion;
  standard = s;
  user_defined_converter = none;
  rank = s.rank;
}

unfoldable pub get_user_defined : ℕ → StandardConversionSequence → ImplicitConversionSequence
get_user_defined converter s = record {
  kind = user_defined_conversion;
  standard = s;
  user_defined_converter = some converter;
  rank = ConversionRank.user_defined;
}

unfoldable pub get_ellipsis : ImplicitConversionSequence
get_ellipsis = record {
  kind = ellipsis_conversion;
  standard = identity_sequence;
  user_defined_converter = none;
  rank = ConversionRank.ellipsis;
}

unfoldable pub get_bad : ImplicitConversionSequence
get_bad = record {
  kind = ConversionKind.bad_conversion;
  standard = identity_sequence;
  user_defined_converter = none;
  rank = ConversionRank.bad_conversion;
}

unfoldable pub is_bad_kind : ConversionKind → Bool
is_bad_kind ConversionKind.bad_conversion = true
is_bad_kind _ = false

unfoldable pub is_bad : ImplicitConversionSequence → Bool
is_bad s = is_bad_kind s.kind

-- For two sequences of one kind.
unfoldable pub compare_same_kind :
    ConversionKind → ImplicitConversionSequence → ImplicitConversionSequence → ℤ
compare_same_kind standard_conversion s t = compare_standard s.standard t.standard
compare_same_kind user_defined_conversion s t = compare_standard s.standard t.standard
compare_same_kind _ s t = pos 0

-- `ImplicitConversionSequence::compare`
unfoldable pub compare_implicit : ImplicitConversionSequence → ImplicitConversionSequence → ℤ
compare_implicit s t =
    let p1 = kind_priority s.kind in
    let p2 = kind_priority t.kind in
    if is_bad s && is_bad t
    then pos 0
    else if is_bad s
    then pos 1
    else if is_bad t
    then negsuc 0
    else if ltb p1 p2
    then negsuc 0
    else if ltb p2 p1
    then pos 1
    else compare_same_kind s.kind s t
