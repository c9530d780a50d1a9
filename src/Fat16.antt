-- ===== src/Fat16.antt =====
-- The FAT16 driver of src/kernel/fat16.c. Its static variables are a `Volume`, which
-- only `fat16_init` changes; a function that writes to the disk returns the new disk.
pub mod Volume
pub mod Names
pub mod Directory
pub mod Read
pub mod Write
mod Tests
