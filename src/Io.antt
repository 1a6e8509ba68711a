-- ===== src/Io.antt =====
-- libchaos-io.
pub mod Path
pub mod Rule
pub mod Buffer
pub mod Select
pub mod FdCache
pub mod Actions
pub mod Stamp
pub mod Resolve
pub mod Reload
pub mod Match
mod Tests
