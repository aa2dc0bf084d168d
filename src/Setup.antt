-- ===== src/Setup.antt =====
-- cmd/main.go: the flags, the options of the servers, the cache and the manager, and the start of
-- the process.
pub mod Options
pub mod Start
pub mod Laws
