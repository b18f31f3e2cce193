-- ===== src/Command.antt =====
-- src/commands: one module for each command, and the dispatch of a line in Command/Dispatch.antt.
-- `fd` is the descriptor of the client that sent the command. `who` is that client as the handler
-- finds it: the handlers read its names and flags, which no message to it changes.
pub mod Common
pub mod Pass
pub mod Nick
pub mod User
pub mod Join
pub mod Kick
pub mod Invite
pub mod Topic
pub mod Privmsg
pub mod Mode
pub mod Dispatch
pub mod Effects
