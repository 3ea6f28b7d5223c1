-- ===== src/Lib.antt =====
-- Verification of the SI STVLTVM kernel and its boot loader: the physical page allocator, the page
-- tables, the start of the kernel that builds on both, the strings, the formatted output, the console,
-- and the code that drives ports, interrupt controllers, timer and serial port.
--
-- The boot loader (src/bootloader.c) gets the firmware's memory map, loads the kernel's file and enters
-- it with both. The allocator (src/page_frames.c)
-- builds from it a bitmap of page frames, which lies in physical memory itself, and grants and
-- takes back frames. The page tables (src/page_map.c) live in granted frames. The formatted output
-- (src/fmt.c) uses the strings (src/string.c) and goes through kputc of the serial port
-- (src/serial.c) or to the console.
--
-- - Base: the native numbers, casts and wrapping arithmetic of C, integers, and string constants.
-- - Bits: the operators `&`, `|` and `~` at variables, digit by digit and field by field.
-- - Memory: physical memory as a function from addresses to bytes; words lie low byte first.
-- - Frames: src/page_frames.c. The record Frames holds the globals, the bitmap's descriptor and
--   memory; an operation is a function from a state to the next one and its result. The C functions
--   carry the prefix ppa_, which is left out: Frames.lck is ppa_lck, Frames.request is ppa_request.
--   Frames/Init has ppa_init and the descriptors of src/efimem.h, Frames/Copy the byte copies, and
--   Frames/Names the types of memory with the table of src/efimem.c.
--   Bitmap, Lock, Range and Request, and the children of Init, have the proofs.
--   Frames/Supply counts how many frames a state can still grant.
-- - PageMap: src/page_map.c over the state of the allocator; the prefix pmm_ is left out.
--   PageMap/Entry has the proofs on entries. PageMap/Tree says what the tables are: each frame has a
--   label, the level of the table that it holds and the part of the address space that the table
--   covers, and a present entry leads to the table of its part. Entries, Grow, Descend, Link and Map
--   follow one call of pmm_map_memory through the four levels; Frame has what the tables do not notice.
-- - Kernel: src/kernel.c. Kernel/Pages has init_pmm and the memory set-up of init_kernel,
--   Kernel/Interrupts has init_gdt and init_idt with src/gdt.c, Kernel/Faults the fault handlers of
--   src/interrupts.c, Kernel/Virtual the test of the memory mapping, Kernel/Greeting the colours on the
--   screen, and Kernel/Cpu the functions of src/kernel.h. Kernel/Run puts init_kernel and _start together
--   over one state, the record Kernel, up to the endless loops, which Kernel/Loop has: its inputs are
--   interrupts and actions of the main program, in any order. Identity, Root and Start have the proofs on
--   memory, from one loop over pages to the whole set-up, Table and SelfTest those on what follows it, and
--   Reach those on the load of the tables, and Launch those on the whole start; the children of Loop have those on the wait and on the echo.
-- - Boot: src/bootloader.c. The record Firmware holds the services that the code calls, on a state of the
--   machine that stays abstract; Boot/Map, Segment, Segments, Screen and Start have the proofs, each with
--   a record of what it relies on in the firmware. Boot/Report has PrintSystemInfo, GetVolume and GetFileSize.
-- - Console: src/conlib.c and src/conlib.h, with the font renderer ssfn_putc as a parameter.
-- - Text: src/string.c over memory; Text/Token and Text/Strtok have strtok, Text/Number has itoa and itoas of
--   src/conlib.c, which are __utoa and __itoa of src/fmt.c, Text/Float ftoa and ftoan with the arithmetic of
--   doubles as a parameter, and Text/Compare the proofs on strcmp.
-- - Format: src/fmt.c and src/fmt.h. A printing function returns the characters that it hands to
--   __putchar and its count; `none` is behaviour that C leaves undefined. Format/Directive parses
--   the directives, the other children have the proofs; Checked says which formats are always defined.
-- - Ports: src/port_io.h, src/port_io.c, src/chrono.c, src/serial.c, src/serial.h, and
--   Timer_Handler and Keyboard_Handler of src/interrupts.c. The state is the history of port accesses; what the hardware answers is a
--   parameter, a function of that history.
-- - Idt: src/idt.c and src/idt.h.
--
-- A uint64_t is a number below 2 ^ 64, and its arithmetic is written with the remainder. Loops with a
-- known number of rounds recurse on that number. The loops of src/string.c take fuel, for which one
-- more than the length of the string is enough; the loop over digits has 64 rounds, for 64-bit
-- numbers; the loop over a format has a round for each character and one for the NUL; polling the
-- serial port takes fuel, for which the number of busy answers is enough. GetMemoryMap takes
-- fuel for its retries, for which the bound on the size of the map is enough, puts_at for its steps
-- from a negative position, and PrintSystemInfo for its structures, for which one more than the size of
-- the tables is enough. The start takes one number as fuel for the serial port, for the text of its test, which needs 40, and
-- for puts_at.
--
-- Where C leaves something undefined, a result is `none` (Format), or the field `defined` of the allocator's state
-- is false: an int overflows in ppa_ulckn and ppa_ursvn from 2 ^ 19 pages on, and in ppa_init_bitmap from 2 ^ 31 words
-- on. The ints of strrev have no overflow up to 2 ^ 31 bytes, and it makes no round above.
--
-- The load of CR3 by set_pml4 is a step of the start that ends in a fault, `none`, unless the kernel's image, its
-- stack, the bitmap and all frames in the bitmap are mapped to themselves; behind it the model still uses
-- physical addresses for them, which are then the same, and looks at the tables again behind the test of the mapping.
-- Accesses to the frame buffer behind it are not followed through the tables.
--
-- Not modelled: an interrupt that comes before the endless loops, within a message or within a handler;
-- what a read of a port or a store to an address of a device does beyond its answer; the font renderer
-- src/ssfn.c, which is another project's; and assembly code.
mod Base
pub mod Bits
pub mod Memory
pub mod Text
pub mod Format
pub mod Frames
pub mod PageMap
pub mod Ports
pub mod Idt
pub mod Console
pub mod Boot
pub mod Kernel
