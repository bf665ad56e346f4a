-- ===== src/Networks.antt =====
-- Network layers and configurations: what all policies together allow (nca/NetworkConfig).
pub mod Layer
pub mod Container
pub mod Config
