-- ===== src/Receipts.antt =====
-- core/yatagarasu_core/receipts.py: the receipt reducer.
pub mod Transition
pub mod Participant
pub mod Session
pub mod Reducer
pub mod Permits
pub mod Dispositions
pub mod Verdicts
pub mod Repeats
pub mod Proven
