-- ===== src/Adt.antt =====
-- The containers and integers of include/blocktype/IR/ADT.
pub mod DenseMap
pub mod ApInt
mod Examples
