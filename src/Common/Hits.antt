-- ===== src/Common/Hits.antt =====
-- src/common/chaos_hits.h: the slots that count the hits of each rule, and the pool of slots that
-- survives a reload. A slot pointer into the pool is its index; `none` is NULL.
pub mod Slot
pub mod Threads
pub mod Pool
mod Tests
