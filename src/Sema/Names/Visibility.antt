-- ===== src/Sema/Names/Visibility.antt =====
-- What registering a declaration does to the open scopes, to the global table and to lookups.
use Prim.Native.String.{String}
use text.Mathlib.Text.{◌==◌ as str_eq}
use block_type.Prelude.Maps
use block_type.Prelude.Maps.{string_key}
use block_type.Sema.Scope
use block_type.Sema.Scope.Flag
use block_type.Sema.Scope.{Scope}
use block_type.Sema.SymbolTable
use block_type.Sema.SymbolTable.{SymbolTable}
use block_type.Sema.Names.{Sema}
