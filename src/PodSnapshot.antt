-- ===== src/PodSnapshot.antt =====
-- operator/internal/controller/podsnapshot_reconciler.go: a PodSnapshot is bound to a work order
-- for the node agent, mirrors its result, and cascades its deletion.
pub mod Client
pub mod Source
pub mod Status
pub mod Content
pub mod Mirror
pub mod Reconcile
pub mod Conditions
pub mod Writes
pub mod Failure
pub mod Cascade
pub mod Binding
pub mod Settled
mod Examples
