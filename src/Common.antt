-- ===== src/Common.antt =====
-- What the services share: src/common and the errors that they raise.
pub mod Errors
pub mod Tax
pub mod Roles
