-- ===== src/Demo.antt =====
-- The programs that show the writers at work: demo.cc and pqdemo.cc.
pub mod Rows
pub mod Messages
pub mod Sent
pub mod Tests
pub mod Finishes
