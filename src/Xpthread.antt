-- ===== src/Xpthread.antt =====
-- xpthread.c: the parts of the threading library that are its own and not the system's.
pub mod Time
pub mod Signal
pub mod Queue
pub mod Port
pub mod Thread
mod Tests
