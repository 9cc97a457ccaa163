-- ===== src/Tools.antt =====
-- The deployment tools of packages/fcc-extension/tools.
pub mod Report
pub mod Consistency
pub mod Registration
pub mod Governance
pub mod Polling
mod Tests
