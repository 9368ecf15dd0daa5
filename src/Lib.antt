-- ===== src/Lib.antt =====
-- bunos is a small kernel for 32-bit x86 with its own template library and libc. This library models
-- its components as functions on explicit state and proves them correct.
--
-- What each directory is about:
--   Prelude            shared helpers. Numbers are natural; a machine word keeps its wrap-around
--                      (add32, sub32, u8, ...). A run that can fail is a Result: ok, panic (a failed
--                      assertion or a kernel panic, which do not return), fault (an access outside
--                      of the storage the code was given), timeout (the fuel of a model ran out).
--                      Bits has the laws of and, or and masks at variables.
--   Libc.Memory        memcpy, memset and memmove of libc/string.cpp on arrays of bytes
--   Libc.Strings       strlen, strcpy, strncpy, strcmp, strncmp, memcmp of libc/string.cpp
--   Libc.Ctype         libc/ctype.cpp, for arguments that are not negative
--   Libc.Format        the formatter of libc/stdio.cpp, sprintf_impl and what it calls. Digits has the
--                      digits of a number as their own functions.
--   Libc.Numbers       strtoll and its relatives of libc/stdlib.cpp; a product of ints that does not fit
--                      32 bits is a fault
--   Bustd.Math         bustd/math.hpp at the type usize
--   Bustd.RingBuffer   SizedRingBuffer of bustd/ringbuffer.hpp; Ring is its state and the methods
--                      are functions of the same names (drop is discard, take is take_upto). Queue is
--                      what it promises, a queue with a capacity.
--   Bustd.Bitfield     Bitfield of bustd/bitfield.hpp, a list of bytes
--   Bustd.LinkedList   List of bustd/list.hpp, with its nodes in a store by address, and its
--                      LoopingIterator; back, remove, ... are the methods. IsList says that the list
--                      object is a row of addresses with their values.
--   Bustd.Vector       Vector of bustd/vector.hpp; pop is pop(T &), drop_last is pop(), assign is
--                      operator=. IsVector says which list of elements it holds. Whether malloc finds
--                      the room for some bytes is the parameter has_room; for 0 bytes it gives none.
--   Kernel.PhysicalPages  kernel/physicalmalloc.cpp, on such a bit field; the first page's address
--                      is the parameter start
--   Kernel.Kmalloc     the Allocator of kernel/kmalloc.cpp. Allocator holds the bounds of the heap
--                      and the block headers by address; allocate, split, deallocate, merge_blocks
--                      and next_block are the methods. Cells is the abstract view: the list of blocks.
--   Kernel.Keyboard    the PS2Keyboard of kernel/x86/ps2_keyboard.cpp with the scan codes of
--                      kernel/x86/ps2_keyboard_scancodes.hpp, and the file of
--                      kernel/process/keyboardfile.cpp. Both hold ring buffers. Layout is a US keyboard.
--   Kernel.Vga         the text screen of kernel/x86/tty/vga.cpp; it calls the functions of
--                      Libc.Memory to scroll
--   Kernel.Paging      kernel/x86/paging.cpp, the entries of page tables and their 32-bit words
--   Kernel.Task        kernel/task/x86.cpp and kernel/process.hpp: registers, the frame of an interrupt,
--                      processes
--   Kernel.Sched       kernel/sched.cpp on a linked list of such processes
--   Kernel.VirtualMemory  kernel/x86/memory.cpp. It takes pages from Kernel.PhysicalPages, writes entries
--                      of Kernel.Paging and gives pages to processes. Memory is a function from
--                      physical addresses to words, so that tables can alias.
--   Kernel.Interrupts  kernel/x86/pic.cpp and kernel/interrupts.cpp; the ports are the interface Ports,
--                      and HasMasks is what the theorems on masks use of the controllers
--   Kernel.Gdt         kernel/x86/gdt.cpp
--   Kernel.Idt         the gates of kernel/x86/interrupts.cpp
--   Kernel.Pata        kernel/x86/pata.cpp, the disk on the primary bus; what stands behind the ports
--                      is a parameter, and IsDrive is what a drive documents
--   Kernel.Ps2         kernel/x86/ps2.cpp, over the interface Ports of Kernel.Interrupts
--   Kernel.Serial      kernel/x86/tty/serial.cpp, on a ring of Bustd.RingBuffer and over the same Ports;
--                      IsLine is what a UART documents
--   Kernel.Ext2        kernel/filesystem/ext2.cpp and the structures of ext2_structs.hpp, on a disk that
--                      is the parameter read. Entries is what a directory holds, File what a file
--                      holds, Paths the segments of a path.
--   Kernel.Vfs         kernel/filesystem/vfs.cpp over FileSystem, the functions of ifilesystem.hpp;
--                      ext2_filesystem is the one of Kernel.Ext2. has_room is malloc again.
--   Kernel.DebugSymbols  kernel/debugsymbols.cpp; it reads its file from Kernel.Vfs and its addresses with
--                      Libc.Numbers
--   Kernel.Lock        kernel/spinlock.cpp and kernel/interruptguard.cpp
--
-- Fuel: the walks of the allocator over its blocks (scan, locate, merge_blocks) run on the fuel
-- `rounds`, the size of the heap in units of a block and one more. Every round passes a header of a
-- unit, so this is enough, and the theorems on the allocator say that no run times out. The
-- formatter's loop runs on more fuel than the format has characters, the clear of a list or a vector
-- on its size, and the loop of reschedule on the number of processes; that this is enough is proved
-- with the formatter, the clear of a vector and the scheduler. The loops that poll the disk or
-- the controller of the keyboard run on any fuel, and Kernel.Pata.Sectors and Kernel.Ps2.Detect say
-- which devices it is enough for; so do those of the serial line, with Kernel.Serial.Order. The loop
-- over the entries of a block runs on the size of the block, which is enough where every entry has a length
-- (Kernel.Ext2.Entries); an entry of length 0 lets the code, too, go on for ever. All other loops are
-- recursive on their own count.
--
-- Not modelled: interrupts that come in the middle of an operation (the operations of the keyboard
-- file run one after the other, and what holds a lock keeps it); assembly, such as the entry into a
-- process; the kernel's own first page tables, which are filled from addresses of the linker; the ELF
-- loader and the interrupt of the serial line; string views and the moves of lists and vectors. They
-- are to be added; wrappers that only forward and the hooks of sanitizers are not.
pub mod Bustd
pub mod Kernel
pub mod Libc
pub mod Prelude
