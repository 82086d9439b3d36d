-- ===== src/Io.antt =====
-- What the program uses of Go's `io`, `os`, `net` and `errors`: results, a connection, a disk.
pub mod Result
pub mod Exec
pub mod Conn
pub mod Disk
