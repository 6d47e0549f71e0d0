-- ===== src/Go.antt =====
-- What the program uses of Go's standard library: strconv and strings.
pub mod Strconv
pub mod Strings
