-- ===== src/StateMachine.antt =====
-- The three state machines of include/umaa and src/umaa, one child each, and what holds of them.
pub mod Command
pub mod Task
pub mod Objective
mod Examples
