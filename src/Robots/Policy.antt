-- ===== src/Robots/Policy.antt =====
-- src/growth_os/robots/policy.py, split by stage.
pub mod Match
pub mod Normalize
pub mod Groups
pub mod Evaluate
