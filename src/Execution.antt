-- ===== src/Execution.antt =====
-- The execution subsystem: growth_os/execution.py, execution_repository.py, execution_service.py,
-- and the execution tables of db/models.py.
pub mod Status
pub mod Store
pub mod Service
pub mod Histories
pub mod Listing
mod Tests
