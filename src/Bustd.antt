-- ===== src/Bustd.antt =====
-- bustd: the containers and helpers of the kernel.
pub mod Math
pub mod RingBuffer
pub mod Bitfield
pub mod LinkedList
pub mod Vector
