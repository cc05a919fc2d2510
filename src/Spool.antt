-- ===== src/Spool.antt =====
-- The printer spooler of hw4/src.
pub mod State
pub mod Arguments
pub mod Tables
pub mod Scan
pub mod Handler
pub mod Print
pub mod Commands
pub mod Consistent
pub mod Reach
mod Tests
