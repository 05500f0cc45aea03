-- ===== src/Tests.antt =====
-- The theorems at concrete inputs.
pub mod Service
pub mod Photos
pub mod Stores
pub mod Events
pub mod Sharing
pub mod Staffing
pub mod Schooling
