-- ===== src/Catalog.antt =====
-- The catalog that a tenant keeps: src/categories, src/modifier-groups and src/products.
pub mod Tables
pub mod Categories
pub mod Groups
pub mod Products
pub mod Assignments
pub mod Listing
pub mod Steps
pub mod Requests
pub mod Foreign
pub mod Isolation
pub mod Rules
pub mod Replace
