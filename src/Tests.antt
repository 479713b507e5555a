-- ===== src/Tests.antt =====
-- The theorems at concrete inputs.
pub mod Samples
pub mod CpuTests
pub mod SpaceTests
pub mod JitTests
pub mod CodeTests
pub mod LinkTests
pub mod LoadTests
pub mod ImportTests
pub mod RunTests
