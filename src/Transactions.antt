-- ===== src/Transactions.antt =====
-- src/transactions: the requests of a checkout, the authoritative sale core, and its callers.
pub mod Dto
pub mod Tender
pub mod Catalog
pub mod Pricing
pub mod Persist
pub mod Response
pub mod Replay
pub mod Checks
pub mod Core
pub mod Create
