-- ===== src/Editors.antt =====
-- The editors of a user and of an organization, which follow the lists that the panel polls.
pub mod User
pub mod Organization
