-- ===== src/Go.antt =====
-- What the program uses of the Go language and its standard library.
pub mod Outcome
pub mod Strings
pub mod Strconv
pub mod Scan
pub mod Files
pub mod Regexp
pub mod Scanner
pub mod Net
