-- ===== src/Message.antt =====
-- Names inside DNS messages (dns.c).
pub mod Decompress
pub mod Match
pub mod Compress
pub mod Fits
pub mod CompressFits
mod Tests
