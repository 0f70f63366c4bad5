-- ===== src/Ir/Types/Equality.antt =====
-- `equals` decides whether two types are built alike.
use text.Mathlib.TextEquality.{eq_iff}
use block_type.Prelude.{◌≡◌, ◌↔◌, refl, true, Bool, arith}
use block_type.Ir.Types.{
  IrType, void, integer, float, pointer, array, struct, function, vector, opaque, IrTypes, nil,
  cons, same_flag, equals, equals_all,
}

same_flag_iff : (a b : Bool) → (same_flag a b ≡ true) ↔ (a ≡ b)
same_flag_iff a b = ground arith

mutual
  unfolding equals

  equals-same : (a b : IrType) → equals a b ≡ true → a ≡ b
  equals-same void b h = ground arith
  equals-same (integer w) b h = ground arith
  equals-same (float w) b h = ground arith
  equals-same (pointer p s) (pointer p' s') h = ground (arith, equals-same p p')
  equals-same (pointer p s) _ h = absurd cc
  equals-same (array n e) (array n' e') h = ground (arith, equals-same e e')
  equals-same (array n e) _ h = absurd cc
  equals-same (struct name fields packed) (struct name' fields' packed') h =
      ground
        (arith, eq_iff name name', same_flag_iff packed packed', equals_all-same fields fields')
  equals-same (struct name fields packed) _ h = absurd cc
  equals-same (function r params var_arg) (function r' params' var_arg') h =
      ground
        (arith, equals-same r r', same_flag_iff var_arg var_arg', equals_all-same params params')
  equals-same (function r params var_arg) _ h = absurd cc
  equals-same (vector n e) (vector n' e') h = ground (arith, equals-same e e')
  equals-same (vector n e) _ h = absurd cc
  equals-same (opaque name) (opaque name') h = ground (arith, eq_iff name name')
  equals-same (opaque name) _ h = absurd cc

  equals_all-same : (a b : IrTypes) → equals_all a b ≡ true → a ≡ b
  equals_all-same nil b h = ground arith
  equals_all-same (cons t ts) nil h = absurd cc
  equals_all-same (cons t ts) (cons u us) h = ground (arith, equals-same t u, equals_all-same ts us)

mutual
  unfolding equals

  equals_refl : (a : IrType) → equals a a ≡ true
  equals_refl void = refl
  equals_refl (integer w) = ground arith
  equals_refl (float w) = ground arith
  equals_refl (pointer p s) = ground (arith, equals_refl p)
  equals_refl (array n e) = ground (arith, equals_refl e)
  equals_refl (struct name fields packed) =
      ground (arith, eq_iff name name, same_flag_iff packed packed, equals_all_refl fields)
  equals_refl (function r params var_arg) =
      ground (arith, equals_refl r, same_flag_iff var_arg var_arg, equals_all_refl params)
  equals_refl (vector n e) = ground (arith, equals_refl e)
  equals_refl (opaque name) = ground (arith, eq_iff name name)

  equals_all_refl : (ts : IrTypes) → equals_all ts ts ≡ true
  equals_all_refl nil = refl
  equals_all_refl (cons t ts) = ground (arith, equals_refl t, equals_all_refl ts)

-- `equals` answers true exactly for two types that are built alike, names and flags included.
pub equals_iff : (a b : IrType) → (equals a b ≡ true) ↔ (a ≡ b)
equals_iff a b = (equals-same a b, λ e. rw e (equals_refl b))
