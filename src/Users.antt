-- ===== src/Users.antt =====
-- What the panel puts together about its users from the certificates and the connected clients.
pub mod Profiles
pub mod Sessions
pub mod Create
pub mod Disconnect
