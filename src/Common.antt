-- ===== src/Common.antt =====
-- What the chaos libraries share: src/common, and the loop over a rule file that each writes out.
pub mod Policy
pub mod Hits
pub mod Status
pub mod RuleLine
pub mod RuleFile
pub mod Ranked
pub mod Libc
pub mod Sample
pub mod Snapshot
pub mod Reload
pub mod ReadFile
