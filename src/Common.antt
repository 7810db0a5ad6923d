-- ===== src/Common.antt =====
-- common/: numbers as text, and coroutines.
pub mod Itoa
pub mod Grisu
pub mod Coroutine
mod Tests
