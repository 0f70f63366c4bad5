-- ===== src/Sema/Scope/Flag.antt =====
-- The values of `ScopeFlags` in include/blocktype/Sema/Scope.h that the scope tests use.
use Prim.Native.Nat.{ℕ}

abbrev pub none : ℕ
none = 0x00

abbrev pub function_prototype_scope : ℕ
function_prototype_scope = 0x01

abbrev pub function_body_scope : ℕ
function_body_scope = 0x02

abbrev pub class_scope : ℕ
class_scope = 0x04

abbrev pub block_scope : ℕ
block_scope = 0x08

abbrev pub namespace_scope : ℕ
namespace_scope = 0x100

abbrev pub translation_unit_scope : ℕ
translation_unit_scope = 0x200

abbrev pub lambda_scope : ℕ
lambda_scope = 0x1000

abbrev pub template_param_scope : ℕ
template_param_scope = 0x2000
