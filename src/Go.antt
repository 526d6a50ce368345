-- ===== src/Go.antt =====
-- What the program uses of Go's standard library on texts, numbers and paths. A Go string is a
-- list of bytes; letters and spaces are the ASCII ones.
pub mod Text
pub mod Number
pub mod FilePath
pub mod Runes
pub mod Sort
