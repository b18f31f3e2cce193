-- ===== src/Policy/Invariant.antt =====
-- The invariant of the server, and that every act keeps it.
pub mod Members
pub mod Channels
pub mod Clients
pub mod Nicks
pub mod All
