-- ===== src/Tests.antt =====
-- The theorems at concrete inputs, and runs of the definitions.
pub mod Samples
pub mod Buffers
pub mod Storage
pub mod Writes
pub mod Links
pub mod Startup
pub mod Requests
pub mod Opening
pub mod Upgrade
