-- ===== src/ServiceMonitor.antt =====
-- pkg/controllers/servicemonitor: service monitors federated to the Prometheus of a Rancher project.
pub mod Ports
pub mod Federated
pub mod Resolved
pub mod Order
pub mod Auto
pub mod Federation
