-- ===== src/Core1.antt =====
-- Core-1, the framework of the services (Core-1/).
pub mod Isolation
pub mod Ring
pub mod Text
pub mod Heap
pub mod Service
pub mod Ipc
pub mod Start
