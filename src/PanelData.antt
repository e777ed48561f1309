-- ===== src/PanelData.antt =====
pub mod Keys
pub mod Poll
pub mod Fetch
pub mod Refresh
