-- ===== src/Policies.antt =====
-- Network policies and what they allow, deny and pass (nca/Resources/PolicyResources).
pub mod Connectivity
pub mod Policy
pub mod Rules
pub mod Calico
pub mod K8s
pub mod Istio
pub mod Gateway
pub mod Sidecar
pub mod NetPolicy
pub mod Order
pub mod Equality
pub mod Types
