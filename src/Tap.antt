-- ===== src/Tap.antt =====
-- sdk/src/types/tap.rs: the standard models of agents, skills and their payments.
pub mod Budget
pub mod Types
pub mod Requirements
pub mod Registry
pub mod Commitment
pub mod Tests
