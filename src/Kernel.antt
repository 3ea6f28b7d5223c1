-- ===== src/Kernel.antt =====
-- The start of the kernel, src/kernel.c, over the allocator, the page tables and the ports.
pub mod Pages
pub mod Identity
pub mod Root
pub mod Start
pub mod Interrupts
pub mod Table
pub mod Faults
pub mod Cpu
pub mod Virtual
pub mod SelfTest
pub mod Greeting
pub mod Run
pub mod Reach
pub mod Launch
pub mod Loop
mod Tests
mod Trial
