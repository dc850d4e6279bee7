-- ===== src/Printf.antt =====
-- printf.c: the conversion of numbers, the fields, the machine that reads a format, and the
-- functions that send the characters to a buffer or to the console.
pub mod Number
pub mod Field
pub mod Machine
pub mod Output
mod Tests
