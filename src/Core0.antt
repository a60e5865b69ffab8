-- ===== src/Core0.antt =====
-- Core-0, the kernel of HIK (Core-0/).
pub mod Capability
pub mod Mm
pub mod Sched
pub mod Irq
pub mod Service
pub mod Text
pub mod Paging
pub mod Process
