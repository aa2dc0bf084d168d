-- ===== src/Generator.antt =====
-- pkg/generator: a Package is turned into the objects to apply.
pub mod Determinism
pub mod Names
pub mod Metadata
pub mod Hbone
pub mod Bare
pub mod Made
pub mod Keys
pub mod Values
pub mod Selectors
pub mod Cidr
pub mod Codec
pub mod Definitions
pub mod Resolve
pub mod Defaults
pub mod Netpol
pub mod IstioResources
pub mod Input
pub mod Inbound
pub mod RouteResources
pub mod Authz
pub mod Generate
