-- ===== src/Generator/Keys.antt =====
-- pkg/generator/shorthand.go, first half: the grammar of the shorthand map keys.
pub mod Patterns
pub mod Ports
pub mod Parse
