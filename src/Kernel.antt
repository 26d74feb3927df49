-- ===== src/Kernel.antt =====
-- The Kernel (src/kernel): admission, routing, gates, the event loop and recovery by replay.
pub mod Config
pub mod Ledger
pub mod Envelope
pub mod Gates
pub mod Record
pub mod Telemetry
pub mod Coordinator
pub mod Steps
pub mod Recovery
pub mod Default
pub mod Safety
pub mod Tests
