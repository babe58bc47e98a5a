-- ===== src/Stream.antt =====
-- The package stream (stream/*.go): readers joined into one, cancellable readers, joined errors.
pub mod Io
pub mod SizedReaders
pub mod MultiReadAt
pub mod MultiError
pub mod MultiReadCloser
pub mod Reader
pub mod MultiReader
pub mod Cancellable
mod Tests
