-- ===== src/Generator/Authz.antt =====
-- pkg/generator/authorizationpolicies.go: the gates, and the policies by their origin.
pub mod Gates
pub mod Shorthand
pub mod Routes
pub mod Custom
pub mod Bare
