-- ===== src/Robots.antt =====
-- src/growth_os/robots: the robots.txt policy and the gates built on it.
pub mod Policy
pub mod Cache
pub mod Access
pub mod Gate
pub mod Binding
mod Tests
