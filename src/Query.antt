-- ===== src/Query.antt =====
-- src/IR: the queries of the incremental compiler, their dependencies, fingerprints and marks.
pub mod Graph
pub mod Hash
pub mod Transitive
pub mod Cycle
pub mod Marks
pub mod Context
mod Examples
