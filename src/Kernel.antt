-- ===== src/Kernel.antt =====
-- The kernel.
pub mod Kmalloc
pub mod Keyboard
pub mod Paging
pub mod Vga
pub mod PhysicalPages
pub mod Task
pub mod Sched
pub mod VirtualMemory
pub mod Interrupts
pub mod Gdt
pub mod Lock
pub mod Idt
pub mod Ext2
pub mod Vfs
pub mod Pata
pub mod Ps2
pub mod Serial
pub mod DebugSymbols
