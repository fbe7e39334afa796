-- ===== src/Go.antt =====
-- What the server uses of Go's standard library: strings, errors, random bytes, hashing, encoding,
-- floating point numbers and times.
pub mod Text
pub mod Fault
pub mod Exec
pub mod Base64
pub mod Sha256
pub mod Float64
pub mod Reader
pub mod Time
