-- ===== src/Values.antt =====
-- The sets of values of single dimensions: protocols, methods and ports (nca/CoreDS).
pub mod Protocols
pub mod Methods
pub mod Ports
