-- ===== src/Core3.antt =====
-- Core-3, the runtime of the applications (Core-3/).
pub mod Heap
pub mod Runtime
