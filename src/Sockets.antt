-- ===== src/Sockets.antt =====
-- sockets/: reading lines and whole blocks from a descriptor.
pub mod ReadLine
pub mod ReadLineBuf
pub mod Blocks
pub mod Inet
pub mod Seqnum
pub mod Unix
pub mod Sendfile
mod Tests
