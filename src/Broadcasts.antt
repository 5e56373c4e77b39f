-- ===== src/Broadcasts.antt =====
-- core/yatagarasu_core/broadcasts.py: the broadcast kernel.
pub mod Expansion
pub mod Snapshot
