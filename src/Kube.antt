-- ===== src/Kube.antt =====
-- What the controllers share: programs that call the API server, conditions, and objects.
pub mod Prog
pub mod Condition
pub mod Result
pub mod Finalizer
pub mod Objects
pub mod Samples
