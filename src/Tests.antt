-- ===== src/Tests.antt =====
-- Runs of the model at concrete inputs, and the theorems applied to them.
mod Fixtures
mod Payments
mod Accounts
mod Texts
mod Funding
mod Codes
mod Gateway
