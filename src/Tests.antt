-- ===== src/Tests.antt =====
-- Tests and examples at concrete inputs.
mod Fixture
mod Steps
mod ReceiptExamples
mod ProofExamples
mod BroadcastExamples
mod JournalExamples
mod RoomExamples
mod InjectorExamples
mod NotificationExamples
mod DeliveryExamples
mod Wiring
mod OutboxExamples
mod MarkerExamples
mod ProtocolExamples
mod ProducerExamples
mod ResidentExamples
