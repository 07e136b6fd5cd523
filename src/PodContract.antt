-- ===== src/PodContract.antt =====
-- api/podcontract: what a restore pod must look like, and the files of its control volume.
pub mod Types
pub mod Protocol
pub mod Mappings
pub mod Scan
pub mod Parts
pub mod Policy
pub mod Build
pub mod NonTarget
pub mod CuInterpose
pub mod Shape
pub mod Accepts
pub mod Destinations
pub mod Files
pub mod OneToMany
pub mod Examples
