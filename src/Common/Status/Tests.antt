-- ===== src/Common/Status/Tests.antt =====
-- Runs and instances for src/common/chaos_status.h.
use macstab_chaos_testing_li.Prelude.{◌≡◌, refl, none, codes}
use macstab_chaos_testing_li.Common.Status.{keep_line, content_hash}

keeps : keep_line 3 (codes "a\tb") ≡ record { line = 3; reason = none; text = codes "a b" }
unfolding keep_line
keeps = refl

empty_hash : content_hash (codes "") ≡ 1469598103934665603
unfolding content_hash
empty_hash = refl
