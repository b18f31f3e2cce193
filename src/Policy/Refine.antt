-- ===== src/Policy/Refine.antt =====
-- The handlers of src/commands and the dispatch of a line are sequences of acts of the policy.
pub mod Enrol
pub mod Join
pub mod Moderate
pub mod Mode
pub mod Dispatch
