-- ===== src/Agent.antt =====
-- agent/internal/controller, the capture: the work order of a PodSnapshotContent on its node.
pub mod Types
pub mod Failure
pub mod Capture
pub mod Reconcile
pub mod Ready
pub mod Evidence
pub mod Safety
pub mod Causes
pub mod Retries
pub mod Owner
pub mod Examples
