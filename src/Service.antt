-- ===== src/Service.antt =====
-- internal/services/domain: the operations on domains, over the world that they change.
pub mod World
pub mod Operations
pub mod Creation
pub mod Startup
pub mod Reading
pub mod Rollback
pub mod Revert
pub mod Drafting
pub mod Created
pub mod Deletion
pub mod Stop
pub mod Samples
mod Tests
