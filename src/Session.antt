-- ===== src/Session.antt =====
-- The session of an administrator in frontend/src/App.tsx: its token, sign-in with a second factor,
-- renewal, expiry and sign-out.
pub mod Token
pub mod Access
pub mod Setup
