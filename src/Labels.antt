-- ===== src/Labels.antt =====
-- The texts that the panel shows for durations, states and log entries, in frontend/src/App.tsx.
pub mod Duration
pub mod Status
pub mod Certificates
pub mod Hosts
