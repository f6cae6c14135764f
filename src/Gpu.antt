-- ===== src/Gpu.antt =====
-- The GPU side of the program, without OpenCL itself: src/gpu.
pub mod Protocol
pub mod Mailbox
pub mod Oracle
pub mod Worker
pub mod Model
mod Tests
