-- ===== src/Bdd.antt =====
-- Images as binary decision diagrams: hw1/src/bdd.c and what it uses of hw1/src/helpingFunctions.c.
pub mod Store
pub mod Lookup
pub mod Image
pub mod Build
pub mod Square
pub mod Raster
pub mod Root
pub mod Apply
pub mod Transform
pub mod Birp
pub mod Options
pub mod Serialize
pub mod Deserialize
mod Tests
