-- ===== src/Communication.antt =====
-- src/communication: the vocabulary of topics and the bus.
pub mod Schema
pub mod Bus
pub mod Tests
