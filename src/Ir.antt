-- ===== src/Ir.antt =====
-- src/IR: the types of the intermediate representation.
pub mod Types
mod Examples
