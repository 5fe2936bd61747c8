-- ===== src/Sat.antt =====
-- devices/sat/sat.c: the Saturn Allocation Table, one child for each group of its functions.
pub mod Partition
pub mod Bitmap
pub mod Blocks
pub mod Header
pub mod Find
pub mod Table
pub mod Walk
pub mod Read
pub mod Format
pub mod Delete
pub mod Stream
pub mod RoundTrip
pub mod Others
pub mod Kept
pub mod Overwrite
pub mod Session
pub mod Directory
pub mod Write
pub mod Tests
