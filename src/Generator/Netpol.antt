-- ===== src/Generator/Netpol.antt =====
-- Network policies: the shorthand of either direction, and the whole set (networkpolicies.go,
-- networkpolicies_shorthand.go).
pub mod Local
pub mod Egress
pub mod Ingress
pub mod All
pub mod OneWay
