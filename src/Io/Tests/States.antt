-- ===== src/Io/Tests/States.antt =====
-- Runs and instances for the reload and the match of a path.
use mathlib.Core.Logic.{◌⊎◌}
use macstab_chaos_testing_li.Prelude.{
  arith, ◌≡◌, ◌≢◌, refl, true, false, Option, some, [], ◌∷◌, Bytes, codes, bytes_eq, strip_prefix,
}
use macstab_chaos_testing_li.Common.Policy.Word.{parse_word, is_empty}
use macstab_chaos_testing_li.Common.Policy.Number.{parse_number}
use macstab_chaos_testing_li.Common.Policy.Probability.{parse_probability}
use macstab_chaos_testing_li.Common.Policy.Extract.{extract}
use macstab_chaos_testing_li.Common.Status.{clear, keep_line, content_hash}
use macstab_chaos_testing_li.Common.Hits.Slot.{Slot}
use macstab_chaos_testing_li.Common.Hits.Pool.{assign}
use macstab_chaos_testing_li.Common.Snapshot.{
  bytes_read, loaded, read_valid, reloading, removed, transient, unknown,
}
use macstab_chaos_testing_li.Io.Path.{is_excluded_path, prefix_covers, normalize_path}
use macstab_chaos_testing_li.Common.RuleLine.{trim}
use macstab_chaos_testing_li.Common.RuleFile.{judge, lines}
use macstab_chaos_testing_li.Io.Rule.{
  Rule, write, bare_rule, parse_line, parse_operation, parse_errno_name, parse_io_probability,
  effect_allowed,
}
use macstab_chaos_testing_li.Io.Buffer.{parse_buffer}
use macstab_chaos_testing_li.Io.Select.{applies, rule_prefix_matches, select_rule}
use macstab_chaos_testing_li.Io.Select.Best.{Wins}
use macstab_chaos_testing_li.Io.Resolve.{resolve_rules}
use macstab_chaos_testing_li.Io.Reload.{Snapshot, State, snapshot, reload}
use macstab_chaos_testing_li.Io.Reload.Outcome.{stays, reload_ends}
use macstab_chaos_testing_li.Io.Reload.Publish.{IsKept, IsPublished}
use macstab_chaos_testing_li.Io.Match.{
  Answers, refresh, match_path, match_loaded, refresh_claim, match_path-Wins,
}
use macstab_chaos_testing_li.Io.Tests.Rules.{any_rule, file}
use macstab_chaos_testing_li.Common.Sample.{digits_from}

abbrev itself : Bytes → Option Bytes
itself p = some p

abbrev no_rules : Snapshot
no_rules = record {
  sequence = 2;
  rules = [];
  parse_ok = true;
  entries = [];
  links = false;
  resolved_ms = 0;
}

abbrev free_slot : Slot
free_slot = record {
  count = 0;
  claimed = 0;
  state = 0;
  report = false;
  generation = 1;
  used = false;
}

abbrev start : State
start = record {
  zeroth = no_rules;
  first = no_rules;
  active = false;
  pool = free_slot ∷ free_slot ∷ [];
  pool_used = false;
  cached = unknown;
  provisional = false;
  content = 0;
  error = clear;
  status = removed;
}

abbrev first_check : Answers
first_check = record { recent = true; observed = 77; file = bytes_read file false }

reload_ends_example :
    ((stays (digits_from 0) itself any_rule 5 77 unknown transient start ≡ true)
      × IsKept false unknown start
          (reload (digits_from 0) itself any_rule 5 77 unknown transient start))
    ⊎ ((stays (digits_from 0) itself any_rule 5 77 unknown transient start ≡ false)
        × IsPublished false 77 0 start
            (reload (digits_from 0) itself any_rule 5 77 unknown transient start))
reload_ends_example = reload_ends (digits_from 0) itself any_rule 5 77 unknown transient start

refresh_claim_example :
    (refresh (digits_from 0) itself any_rule 5 first_check start).cached ≢ reloading
refresh_claim_example =
    refresh_claim (digits_from 0) itself any_rule 5 first_check start (λ e. omega (arith, e))
      (λ e. omega (arith, e))

status_told : (refresh (digits_from 0) itself any_rule 5 first_check start).status ≡ loaded 1
unfolding refresh reload content_hash parse_buffer judge lines keep_line extract parse_word
    parse_number is_empty parse_line parse_operation parse_errno_name parse_io_probability
    parse_probability effect_allowed trim bytes_eq strip_prefix resolve_rules normalize_path assign
status_told = refl

abbrev slow : Rule
slow = bare_rule (codes "/a") write

abbrev loaded_once : State
loaded_once = record start {
  zeroth = record no_rules { rules = slow ∷ []; entries = (some 0, codes "/a:write:EIO:0.0") ∷ [] };
  cached = 77;
}

matched :
    (match_path
      (digits_from 0)
      itself
      any_rule
      5
      write
      (some (codes "/a/b"))
      first_check
      loaded_once).0
    ≡ some slow
unfolding match_path refresh match_loaded select_rule applies rule_prefix_matches prefix_covers
    is_excluded_path strip_prefix bytes_eq read_valid
matched = refl

match_path-Wins_example :
    (is_excluded_path (some (codes "/a/b")) ≡ false)
    × ((match_path
          (digits_from 0)
          itself
          any_rule
          5
          write
          (some (codes "/a/b"))
          first_check
          loaded_once).1
        ≡ refresh (digits_from 0) itself any_rule 5 first_check loaded_once)
    × Wins
        (applies write (codes "/a/b"))
        (snapshot
          (refresh (digits_from 0) itself any_rule 5 first_check loaded_once).active
          (refresh (digits_from 0) itself any_rule 5 first_check loaded_once)).rules
        slow
match_path-Wins_example =
    match_path-Wins (digits_from 0) itself any_rule 5 write (codes "/a/b") first_check loaded_once
      matched
