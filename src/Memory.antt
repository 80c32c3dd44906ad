-- ===== src/Memory.antt =====
-- internal/memory: what a connection remembers of its raw bytes.
pub mod RawWindow
pub mod Dictionary
pub mod Tests
