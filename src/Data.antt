-- ===== src/Data.antt =====
-- The data structures of Go and the functions of its standard library that the program uses.
pub mod Map
pub mod Heap
pub mod Text
