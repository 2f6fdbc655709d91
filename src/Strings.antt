-- ===== src/Strings.antt =====
-- lib/string.c. A pointer to a string is the rest of the object that it points into, as a list of bytes; what
-- reads or writes behind the object's end is `none`. memset and memmove, whose areas may overlap, work on the memory.
pub mod Scan
pub mod Copy
pub mod Block
pub mod Number
mod Tests
