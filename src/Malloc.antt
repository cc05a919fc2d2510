-- ===== src/Malloc.antt =====
-- The allocator of hw3/src/sfmm.c and hw3/src/helpingFunction.c.
pub mod Sizes
pub mod Memory
pub mod Tags
pub mod Tiling
pub mod Spans
pub mod Allocate
pub mod Free
pub mod Resize
mod Tests
