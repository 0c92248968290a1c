-- ===== src/Store.antt =====
-- services/api/src/store.ts: the JSON store. Records in `Users`, `Payments` and `Records`, the
-- state in `Db`, its operations in the modules named for the collections.
pub mod Users
pub mod Payments
pub mod Records
pub mod Db
pub mod Transfers
pub mod Accounts
pub mod Quotes
pub mod Sessions
pub mod Shares
pub mod Deposits
pub mod Requests
