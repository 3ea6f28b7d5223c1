-- ===== src/Ports.antt =====
-- Port input and output, and the code that drives the interrupt controllers, the timer and the
-- serial port with it: src/port_io.h, src/port_io.c, src/chrono.c, src/serial.c and the timer
-- handler of src/interrupts.c.
pub mod Machine
pub mod Serial
pub mod Mask
pub mod Timer
pub mod Print
mod Tests
