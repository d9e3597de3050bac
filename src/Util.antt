-- ===== src/Util.antt =====
-- include/coredb/util and src/util: the validity bitmap, the checksum, and the bytes of a word.
pub mod Bitmap
pub mod Bytes
pub mod Crc32c
pub mod Tests
