-- ===== src/TestRunner.antt =====
-- testrunner.cc and jsontests.cc: the test cases, as programs on the model of the library.
pub mod Scene
pub mod Access
pub mod Basic
pub mod Queries
pub mod Meta
pub mod Values
pub mod Errors
pub mod Scale
pub mod Json
pub mod Lasting
pub mod Scope
pub mod OpenWriter
pub mod OpenMini
pub mod Parts
pub mod Kept
pub mod Suite
pub mod Tests
