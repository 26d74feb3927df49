-- ===== src/Ws.antt =====
-- src/ws: the workflow dispatcher.
pub mod Runtime
pub mod Compiler
pub mod Tests
