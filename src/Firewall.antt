-- ===== src/Firewall.antt =====
-- The firewall editors of frontend/src/App.tsx: the rules of a server's tunnel, of an organization
-- and of a user.
pub mod Rules
pub mod Modal
pub mod Stored
pub mod Saved
