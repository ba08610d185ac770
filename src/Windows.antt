-- ===== src/Windows.antt =====
-- The Windows transport: src/platform/windows/shared.
pub mod Protocol
pub mod VhfQueue
pub mod PidRumble
pub mod PidFeatures
pub mod Features
pub mod Control
pub mod Descriptors
