-- ===== src/Io/Tests.antt =====
-- Instances for libchaos-io.
mod Paths
mod Rules
mod States
mod Caches
