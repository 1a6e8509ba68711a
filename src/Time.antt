-- ===== src/Time.antt =====
-- libchaos-time.
pub mod Selector
pub mod Rule
pub mod Buffer
pub mod Select
pub mod Actions
pub mod Stamp
mod Tests
