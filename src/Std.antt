-- ===== src/Std.antt =====
-- What the program uses of the C++ standard library: byte strings, maps and number conversion.
pub mod Text
pub mod Map
pub mod Number
pub mod Bits
