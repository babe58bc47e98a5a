-- ===== src/Compose.antt =====
-- The package compose (compose/service, compose/controller): comparing projects of docker compose,
-- selecting their services, and creating them.
pub mod Images
pub mod Labels
pub mod RemovalHook
pub mod Controller
pub mod ParseInt
pub mod OutputLine
pub mod Output
pub mod Replacer
pub mod Service
pub mod Preload
pub mod Loader
mod Tests
