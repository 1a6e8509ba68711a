-- ===== src/Net/Tests/Reloads.antt =====
-- Runs and instances for the reload, with the rules of libchaos-net.
use macstab_chaos_testing_li.Prelude.{
  arith, ◌≡◌, ◌⊎◌, refl, true, false, some, [], ◌∷◌, bytes_eq, strip_prefix,
}
use macstab_chaos_testing_li.Common.Policy.Number.{parse_number}
use macstab_chaos_testing_li.Common.Policy.Word.{parse_word, is_empty}
use macstab_chaos_testing_li.Common.Policy.Probability.{parse_probability}
use macstab_chaos_testing_li.Common.Policy.Extract.{extract}
use macstab_chaos_testing_li.Common.Status.{clear, keep_line}
use macstab_chaos_testing_li.Common.Hits.Slot.{Slot}
use macstab_chaos_testing_li.Common.Sample.{digits_from, one_address, sample_libc}
use macstab_chaos_testing_li.Common.Libc.{split_last}
use macstab_chaos_testing_li.Common.RuleLine.{trim, parse_latency}
use macstab_chaos_testing_li.Common.RuleFile.{accepted, lines, judge}
use macstab_chaos_testing_li.Common.Snapshot.{removed, bytes_read, transient}
use macstab_chaos_testing_li.Common.Reload.{
  Snapshot, State, Answers, snapshot, refresh, reload, load, checked_recently,
}
use macstab_chaos_testing_li.Common.Reload.Publish.{IsKept}
use macstab_chaos_testing_li.Common.Reload.Outcome.{
  Holds, file_says, stays, IsReloaded, reload_refines,
}
use macstab_chaos_testing_li.Common.Reload.Check.{refresh_catches_up}
use macstab_chaos_testing_li.Net.Endpoint.{parse_selector}
use macstab_chaos_testing_li.Net.Rule.{
  Rule, parse_operation, parse_errno_name, effect_allowed, selector_allowed, split_rule_fields,
  parse_line,
}
use macstab_chaos_testing_li.Net.Buffer.{parse_buffer}
use macstab_chaos_testing_li.Net.Reload.{net_library}
use macstab_chaos_testing_li.Net.Tests.{any_rule, file, file_rules}

abbrev no_rules : Snapshot Rule
no_rules = record { sequence = 2; rules = []; parse_ok = true; entries = [] }

abbrev free_slot : Slot
free_slot = record {
  count = 0;
  claimed = 0;
  state = 0;
  report = false;
  generation = 0;
  used = false;
}

abbrev start : State Rule
start = record {
  zeroth = no_rules;
  first = no_rules;
  active = false;
  pool = free_slot ∷ free_slot ∷ [];
  pool_used = false;
  cached = 12;
  provisional = false;
  content = 0;
  error = clear;
  status = removed;
}

abbrev new_file : Answers
new_file = record { recent = false; observed = 77; file = bytes_read file false }

reload_refines_example :
    ((stays (net_library sample_libc any_rule) 77 12 transient start ≡ true)
      × IsKept false 12 start (reload (net_library sample_libc any_rule) 77 12 transient start))
    ⊎ ((stays (net_library sample_libc any_rule) 77 12 transient start ≡ false)
        × IsReloaded
            (net_library sample_libc any_rule)
            77
            transient
            start
            (reload (net_library sample_libc any_rule) 77 12 transient start))
reload_refines_example = reload_refines (net_library sample_libc any_rule) 77 12 transient start

said :
    file_says (net_library sample_libc any_rule) 77 (bytes_read file false)
    ≡ some (accepted file_rules)
unfolding load parse_buffer judge lines keep_line extract parse_word parse_number is_empty
    parse_line parse_operation parse_errno_name parse_probability parse_latency effect_allowed
    selector_allowed split_rule_fields parse_selector trim bytes_eq strip_prefix digits_from
    one_address split_last
said = refl

not_recent : checked_recently false 12 ≡ false
unfolding checked_recently
not_recent = refl

refresh_catches_up_example :
    ((refresh (net_library sample_libc any_rule) new_file start).cached ≡ 77)
    × Holds (net_library sample_libc any_rule) true file_rules (
        snapshot
          (refresh (net_library sample_libc any_rule) new_file start).active
          (refresh (net_library sample_libc any_rule) new_file start))
refresh_catches_up_example =
    refresh_catches_up (net_library sample_libc any_rule) new_file start not_recent
      (λ e. omega (arith, e)) (λ e. omega (arith, e)) said
