-- ===== src/Types.antt =====
-- Package types (pkg/types/types.go): errors with a status, and the configuration.
pub mod Errors
pub mod Config
pub mod Normalize
pub mod Ready
pub mod Completed
pub mod Complete
mod Tests
