-- ===== src/Store.antt =====
-- core/yatagarasu_core/store.py: the tables of the schema, and the operations on them.
pub mod Tables
pub mod Exec
pub mod Deliveries
pub mod Providers
pub mod Bindings
pub mod Rooms
pub mod Receipts
