-- ===== src/Database.antt =====
-- prisma/schema.prisma: the tables that the modelled services read and write, and the actions of
-- a transaction client. A row's id is a number: ids are UUIDs, which the program only compares.
pub mod Rows
pub mod Client
pub mod Retry
pub mod Keeps
pub mod Actors
