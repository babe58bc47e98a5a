-- ===== src/Storage.antt =====
-- The package storage (storage/*.go): contents split into files and read back as one, and the
-- preparation of directories.
pub mod Contents
pub mod Prepare
pub mod Splitter
pub mod WriteSplitting
pub mod SplittingStorage
mod Disk
mod Tests
