-- ===== src/Tests.antt =====
-- Runs of the model at concrete inputs: the inputs, and one module for each part.
pub mod Fixtures
pub mod Generation
pub mod Shorthand
pub mod Control
pub mod Life
pub mod Again
pub mod Keys
