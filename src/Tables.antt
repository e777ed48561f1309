-- ===== src/Tables.antt =====
-- The tables of the panel, frontend/src/App.tsx: moving a row by drag and drop, and pages.
pub mod Reorder
pub mod Pages
pub mod History
