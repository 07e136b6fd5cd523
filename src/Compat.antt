-- ===== src/Compat.antt =====
-- api/compat: what a checkpoint was captured on, compared with what a restore target offers.
pub mod Types
pub mod Versions
pub mod Digest
pub mod Devices
pub mod Rules
pub mod CpuFeatures
pub mod Table
pub mod Verdict
pub mod Registration
pub mod Floors
pub mod Coverage
mod Examples
