-- ===== src/Tests.antt =====
-- Concrete inputs at which the theorems of the other modules apply, and what they say there.
mod Codec
mod Routes
mod Panel
mod Config
mod Settings
mod Tables
mod Session
mod Firewall
mod Editors
mod Records
