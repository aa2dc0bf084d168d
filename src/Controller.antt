-- ===== src/Controller.antt =====
-- internal/controller: the reconciler of Packages.
pub mod Conditions
pub mod Cluster
pub mod Prune
pub mod Config
pub mod Reconcile
pub mod Ownership
pub mod Steps
pub mod Setup
