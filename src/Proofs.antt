-- ===== src/Proofs.antt =====
-- core/yatagarasu_core/proofs.py: delivery markers and the correlation of session proofs.
pub mod Timestamps
pub mod Storage
pub mod Markers
pub mod Chain
