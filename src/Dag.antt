-- ===== src/Dag.antt =====
-- The validator of workflow DAGs, sdk/src/dag/validator.rs, over the types of sdk/src/types/dag.rs.
pub mod Spec
pub mod Node
pub mod Petgraph
pub mod Errors
pub mod Build
pub mod Structure
pub mod Order
pub mod Concurrency
pub mod ForEach
pub mod DoWhile
pub mod Validate
pub mod ListGraph
mod Tests
