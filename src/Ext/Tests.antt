-- ===== src/Ext/Tests.antt =====
-- The theorems on the host of extensions at concrete inputs.
pub mod Guards
pub mod Installs
