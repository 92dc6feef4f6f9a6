-- ===== src/Go.antt =====
-- What the program uses of Go's standard library: strings and numbers in text.
pub mod Strings
pub mod Numbers
pub mod Utf8
pub mod Sort
