-- ===== src/Perses.antt =====
-- pkg/perses and the Perses part of pkg/controllers/openviz.
pub mod Client
pub mod Requests
pub mod Variables
pub mod Dashboard
