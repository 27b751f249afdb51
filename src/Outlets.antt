-- ===== src/Outlets.antt =====
-- src/outlets: the receipt settings of an outlet.
pub mod Data
pub mod Settings
pub mod Saved
