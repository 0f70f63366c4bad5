-- ===== src/Query/Hash.antt =====
-- `computeFingerprint` of src/IR/DependencyGraph.cpp: FNV-1a on 64 bits.
pub mod Change
use block_type.Prelude.{ℕ, ◌+◌, ◌*◌, ◌%◌, ◌^◌, List, [], ◌∷◌, ◌++◌, bit_xor}

abbrev pub fnv64_offset_basis : ℕ
fnv64_offset_basis = 14695981039346656037

abbrev pub fnv64_prime : ℕ
fnv64_prime = 1099511628211

-- `Hash ^= x; Hash *= FNV64Prime;` on 64 bits.
unfoldable pub mix : ℕ → ℕ → ℕ
mix hash x = bit_xor hash x * fnv64_prime % 2 ^ 64

unfoldable pub mix_all : ℕ → List ℕ → ℕ
mix_all hash [] = hash
mix_all hash (x ∷ xs) = mix_all (mix hash x) xs

-- Of the bytes of a text.
unfoldable pub text_fingerprint : List ℕ → ℕ
text_fingerprint text = mix_all fnv64_offset_basis text

-- What the fingerprints read of an instruction, a function and a module.
pub record IrInstruction : Type 0 where
  pub opcode : ℕ
  pub num_operands : ℕ

pub record IrFunction : Type 0 where
  pub name : List ℕ
  pub num_args : ℕ
  pub basic_blocks : List (List IrInstruction)

pub record IrModule : Type 0 where
  pub name : List ℕ
  pub target_triple : List ℕ
  pub functions : List IrFunction
  pub num_globals : ℕ

unfoldable pub mix_block : ℕ → List IrInstruction → ℕ
mix_block hash [] = hash
mix_block hash (inst ∷ insts) =
    mix_block (mix (mix hash (inst.opcode % 2 ^ 16)) inst.num_operands) insts

unfoldable pub mix_blocks : ℕ → List (List IrInstruction) → ℕ
mix_blocks hash [] = hash
mix_blocks hash (block ∷ blocks) = mix_blocks (mix_block hash block) blocks

unfoldable pub function_fingerprint : IrFunction → ℕ
function_fingerprint f =
    mix_blocks (mix (mix_all fnv64_offset_basis f.name) f.num_args) f.basic_blocks

unfoldable pub mix_functions : ℕ → List IrFunction → ℕ
mix_functions hash [] = hash
mix_functions hash (f ∷ fs) = mix_functions (mix hash (function_fingerprint f)) fs

unfoldable pub module_fingerprint : IrModule → ℕ
module_fingerprint m =
    mix (mix_functions (mix_all (mix_all fnv64_offset_basis m.name) m.target_triple) m.functions)
      m.num_globals
