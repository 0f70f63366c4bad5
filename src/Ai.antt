-- ===== src/Ai.antt =====
-- The parts of src/AI that do not talk to the network.
pub mod ResponseCache
mod Examples
