-- ===== src/Chunks.antt =====
-- The chunks that hold the markers, the regions and their names: libambix/src/marker_region_chunk.c.
-- A chunk is a list of bytes; a struct is packed, so its bytes are those of its fields in order.
-- A position is a float64_t carried as its word. A name is the bytes before its NUL.
pub mod Fields
pub mod Write
pub mod Read
pub mod Written
pub mod Whole
pub mod Roundtrip
pub mod Everything
pub mod Persist
pub mod Safety
pub mod Tests
