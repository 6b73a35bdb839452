-- ===== src/Tests.antt =====
-- Runs of the models on concrete inputs, and the theorems applied to such inputs.
pub mod Store
pub mod Reducing
pub mod Persisting
pub mod Talking
pub mod Watching
pub mod Keeping
pub mod Bridging
pub mod Planning
