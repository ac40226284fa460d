-- ===== src/Grafana.antt =====
-- pkg/controllers/openviz: what its dashboard reconcilers share.
pub mod Panels
pub mod State
pub mod Dashboard
pub mod Watch
pub mod Client
pub mod Builder
