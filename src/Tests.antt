-- ===== src/Tests.antt =====
-- Sample data, tests of the definitions on it, and the theorems applied to it.
pub mod Sample
pub mod Receipt
pub mod Sales
pub mod Requests
pub mod Rules
pub mod Figures
pub mod Conversion
pub mod Logins
pub mod Menu
pub mod Buyers
pub mod Offline
pub mod Slips
