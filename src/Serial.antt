-- ===== src/Serial.antt =====
-- serial.c: the serial port, the text screen behind it, and the formatted output.
pub mod Vga
pub mod Framebuffer
pub mod Format
pub mod Tests
