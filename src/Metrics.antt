-- ===== src/Metrics.antt =====
-- The metrics of a server: their times, the chart of the last minutes, and the live sample.
pub mod Time
pub mod Chart
pub mod Live
