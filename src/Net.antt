-- ===== src/Net.antt =====
-- libchaos-net.
pub mod Endpoint
pub mod Socket
pub mod Rule
pub mod Buffer
pub mod Select
pub mod Reload
mod Tests
