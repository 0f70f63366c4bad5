-- ===== src/Sema.antt =====
-- src/Sema: names, scopes, the global symbol table, conversions and overload resolution.
pub mod Decls
pub mod Scope
pub mod SymbolTable
pub mod Names
pub mod Types
pub mod Conversion
pub mod Overload
mod Examples
