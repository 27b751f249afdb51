-- ===== src/Shifts.antt =====
-- src/shifts/shifts.service.ts: cashier sessions are opened and closed, and summed up.
pub mod Access
pub mod Read
pub mod Session
pub mod Summary
pub mod Close
pub mod Rules
pub mod Closing
