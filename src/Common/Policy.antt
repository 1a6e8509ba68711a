-- ===== src/Common/Policy.antt =====
-- src/common/chaos_policy.h: rule qualifiers.
pub mod Number
pub mod Word
pub mod Extract
pub mod Gates
pub mod Probability
mod Tests
