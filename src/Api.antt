-- ===== src/Api.antt =====
-- The HTTP interface of the foundation, growth_os/api/foundation.py and growth_os/api/schemas.py.
pub mod Schemas
pub mod Dumps
pub mod Routes
pub mod Handlers
pub mod Isolation
pub mod Errors
pub mod Patches
pub mod Sites
mod Tests
