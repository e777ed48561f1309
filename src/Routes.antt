-- ===== src/Routes.antt =====
-- The client-side routes of the panel, frontend/src/appRoutes.ts: the URL of each page, and the
-- page of each URL.
pub mod State
pub mod Url
pub mod Parse
pub mod Paths
pub mod Queries
pub mod Reading
pub mod RoundTrip
pub mod Tokens
pub mod Pages
