-- ===== src/Orchestrator.antt =====
-- services/api/src/orchestrator.ts: the transfer state machines, in the modules below.
pub mod World
pub mod Steps
pub mod Debit
pub mod Compensate
pub mod Execute
pub mod Settle
pub mod Keeps
pub mod Lemmas
pub mod Burn
pub mod Frame
pub mod Outcome
pub mod Caps
pub mod Returned
pub mod Once
pub mod Authorized
