-- ===== src/Shared.antt =====
-- The protocols of single controllers that the backends share: src/shared.
pub mod SwitchPro
pub mod PlayStation
