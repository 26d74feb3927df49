-- ===== src/Prt.antt =====
-- src/prt: the registry of plugins; the journal of evidence and the health that is folded from it.
pub mod Evidence
pub mod Health
pub mod Loading
pub mod Tests
