-- ===== src/Chapters.antt =====
-- Earlier chapters of the kernel, where their code differs from the last one.
pub mod Timer
pub mod Ticks
pub mod Preemptive
pub mod ExternalInterrupt
pub mod DiskTrap
pub mod UartPlic
pub mod MultiTasking
pub mod ContextSwitch
pub mod TrapFrame
pub mod Starts
pub mod Hello
pub mod Input
mod Tests
