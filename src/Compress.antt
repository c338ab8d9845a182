-- ===== src/Compress.antt =====
-- src/core/compress.cpp: the compressors of data points and of rollup entries.
pub mod Endian
pub mod Rollup
pub mod V0
pub mod Double
pub mod V1
pub mod V3
