-- ===== src/Ti.antt =====
-- The TI hardware around the processor (libz80e/src/ti).
pub mod Memory
pub mod Interrupts
pub mod Mapping
pub mod Lcd
pub mod Keyboard
pub mod Link
pub mod Timers
pub mod Asic
pub mod Tests
