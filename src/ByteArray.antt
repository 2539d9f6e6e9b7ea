-- ===== src/ByteArray.antt =====
-- acid/common/byte_array.h and byte_array.cpp: a growing byte buffer in fixed-size blocks.
pub mod Store
pub mod Streams
pub mod Buffers
pub mod Ints
pub mod Varint
