-- ===== src/Tests.antt =====
-- Runs at fixed inputs, and an example of each theorem that has conditions.
mod States
mod Texts
mod Sessions
mod Bots
mod Handlers
mod Services
mod Modes
