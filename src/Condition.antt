-- ===== src/Condition.antt =====
-- pkg/goDB/conditions: the conditions of a query.
pub mod Outcome
pub mod Node
pub mod Leaves
pub mod Tokenizer
pub mod Parser
pub mod Desugar
pub mod Direction
pub mod Normal
pub mod Values
pub mod Instrument
pub mod Pipeline
