-- ===== src/Io/Select.antt =====
-- src/config/chaos_io_config.c: which rule applies to a path.
pub mod Best
use macstab_chaos_testing_li.Prelude.{
  ℕ, zero, suc, ◌≤◌, ◌<◌, Bool, true, false, not, ◌&&◌, ◌||◌, Option, none, some, List, [], ◌∷◌,
  Bytes, codes, bytes_eq, starts_with, ◌==◌, ltb, if◌then◌else◌, length,
}
use macstab_chaos_testing_li.Io.Path.{prefix_covers, is_excluded_path}
use macstab_chaos_testing_li.Io.Rule.{
  Operation, read, write, open_file, close, fsync, fdatasync, pread, pwrite, truncate, allocate,
  unlink, rename_from, rename_to, Rule,
}

-- `==` on `chaos_io_operation_t`, by its enumerators' numbers
abbrev pub number : Operation → ℕ
number read = 0
number write = 1
number open_file = 2
number close = 3
number fsync = 4
number fdatasync = 5
number pread = 6
number pwrite = 7
number truncate = 8
number allocate = 9
number unlink = 10
number rename_from = 11
number rename_to = 12

abbrev pub is_absolute : Bytes → Bool
is_absolute [] = false
is_absolute (c ∷ s) = c == b'/'

abbrev pub covered_by : Option Bytes → Bytes → Bool
covered_by none path = false
covered_by (some prefix) path = prefix_covers prefix path

-- `chaos_io_rule_prefix_matches`
unfoldable pub rule_prefix_matches : Rule → Bytes → Bool
rule_prefix_matches r path =
    if bytes_eq r.path_prefix (codes "*")
    then is_absolute path && not (starts_with (codes "/memfd:") path)
    else prefix_covers r.path_prefix path || covered_by r.resolved_prefix path

-- the two `continue` conditions of the loop
unfoldable pub applies : Operation → Bytes → Rule → Bool
applies op path r = number r.operation == number op && rule_prefix_matches r path

-- `best == NULL || candidate->path_len > best->path_len`
abbrev pub better : Rule → Option Rule → Bool
better r none = true
better r (some best) = ltb (length best.path_prefix) (length r.path_prefix)

unfoldable pub select_from : (Rule → Bool) → List Rule → Option Rule → Option Rule
select_from test [] best = best
select_from test (r ∷ rs) best =
    select_from test rs (if test r && better r best then some r else best)

-- `chaos_io_config_select_rule`
unfoldable pub select_rule : List Rule → Operation → Bytes → Option Rule
unfolding select_from
select_rule rules op path = select_from (applies op path) rules none
