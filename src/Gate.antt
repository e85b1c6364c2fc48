-- ===== src/Gate.antt =====
-- gate.py: the sole execution gate, a child module for each group of its checks.
pub mod Stage
pub mod Binding
pub mod Observe
pub mod Authorize
pub mod Dispatch
pub mod Checks
pub mod Execute
pub mod Idle
