-- ===== src/HeldOrders.antt =====
-- src/held-orders: orders put aside at the till, and their conversion into sales.
pub mod Dto
pub mod Resolve
pub mod Access
pub mod Read
pub mod Write
pub mod Service
pub mod Convert
pub mod Evolution
pub mod Steps
pub mod Lifecycle
