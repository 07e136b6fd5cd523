-- ===== src/SnapshotJob.antt =====
-- operator/internal/controller/snapshotjob_*.go: the source Job of a SnapshotJob, the capture of
-- its pod, and the status that says how far both are.
pub mod Types
pub mod Reason
pub mod Terminal
pub mod SourceJob
pub mod Build
pub mod Client
pub mod Identity
pub mod Resources
pub mod Reconcile
pub mod Status
pub mod Flags
pub mod Frame
pub mod Precedence
pub mod Phases
pub mod Capture
pub mod Evidence
pub mod Finish
pub mod Children
pub mod Resolve
pub mod Accept
pub mod Safety
pub mod Adoption
pub mod Template
pub mod Examples
