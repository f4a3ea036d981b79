-- ===== src/Storage.antt =====
-- The rows of db/postgres/schema.sql that the durable runtime uses, and units of work on them.
pub mod Table
pub mod Keys
pub mod Selection
pub mod Parts
pub mod Rows
pub mod Tx
