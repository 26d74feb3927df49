-- ===== src/Rsm.antt =====
-- src/rsm: the request state manager.
pub mod Transitions
pub mod Record
pub mod Journal
pub mod Reducers
pub mod Store
pub mod Telemetry
pub mod Ingest
pub mod Evolution
pub mod Requests
pub mod Registry
pub mod Persistence
pub mod Query
pub mod Recovery
pub mod Scenario
pub mod Tests
