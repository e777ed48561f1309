-- ===== src/Settings.antt =====
-- The OpenVPN settings of the panel: their descriptions, and the payloads and texts made of them
-- by frontend/src/App.tsx.
pub mod Meta
pub mod Values
pub mod ServerFields
pub mod Agent
pub mod Panel
pub mod Client
pub mod Fallback
pub mod ClientFields
