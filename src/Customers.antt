-- ===== src/Customers.antt =====
-- src/customers/customers.service.ts.
pub mod Data
pub mod Store
pub mod History
pub mod Writes
pub mod Patch
pub mod Normal
