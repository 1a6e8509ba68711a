-- ===== src/Time/Stamp.antt =====
-- src/time/chaos_time_config.c: the change stamp of the rule file. One that equals either of two reserved
-- values is taken down by 1.
use macstab_chaos_testing_li.Prelude.{ℕ, ◌-◌, ◌||◌, Option, none, some, ◌==◌, if◌then◌else◌}
use macstab_chaos_testing_li.Common.Snapshot.{missing, reloading, unknown}
use macstab_chaos_testing_li.Io.Stamp.{FileStat, fields_hash}

-- `chaos_time_config_normalize_mtime_hash`
unfoldable pub normalize_mtime_hash : ℕ → ℕ
normalize_mtime_hash value = if value == unknown || value == reloading then value - 1 else value

-- `chaos_time_config_hash_mtime`; `none` is NULL.
unfoldable pub hash_mtime : Option FileStat → ℕ
unfolding normalize_mtime_hash
hash_mtime none = missing
hash_mtime (some st) = normalize_mtime_hash (fields_hash st)

-- `chaos_time_config_observed_mtime`, with the result of `stat`, `none` where it fails
unfoldable pub observed_mtime : Option FileStat → ℕ
unfolding hash_mtime
observed_mtime none = missing
observed_mtime (some st) = hash_mtime (some st)
