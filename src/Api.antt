-- ===== src/Api.antt =====
-- The Package API (api/v1alpha1): the spec with its three subsystems, and the status.
pub mod Common
pub mod Istio
pub mod Netpol
pub mod Routes
pub mod Package
