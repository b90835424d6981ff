-- ===== src/Std.antt =====
-- What the program uses of Go's standard library.
pub mod Utf8
pub mod Sort
pub mod Search
pub mod Endian
pub mod FilePath
pub mod Bits
pub mod Fnv
pub mod Strings
pub mod Strconv
pub mod Scanner
