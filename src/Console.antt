-- ===== src/Console.antt =====
-- student-distrib/lib.c (the screen) and `struct terminal` of student-distrib/lib.h.
pub mod Screen
pub mod Scroll
pub mod Bounds
pub mod Output
pub mod Printf
pub mod Numbers
pub mod Formats
pub mod Conversions
pub mod Formatted
pub mod Isolation
pub mod Total
