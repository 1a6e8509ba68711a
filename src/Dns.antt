-- ===== src/Dns.antt =====
-- libchaos-dns.
pub mod Selector
pub mod Value
pub mod Fields
pub mod Rule
pub mod Buffer
pub mod Select
pub mod Reload
mod Tests
