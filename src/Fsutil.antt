-- ===== src/Fsutil.antt =====
-- The package fsutil (fsutil/*.go): writing files safely on an afero file system, copying and
-- comparing file systems.
pub mod CleanDir
pub mod Error
pub mod Action
pub mod Fs
pub mod Path
pub mod Walk
pub mod Tree
pub mod Copy
pub mod Observable
pub mod Equal
pub mod Once
pub mod Text
pub mod OpenRandom
pub mod TmpFile
pub mod SafeWrite
mod Tests
