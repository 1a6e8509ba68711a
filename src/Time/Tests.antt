-- ===== src/Time/Tests.antt =====
-- Runs and instances for libchaos-time.
mod Clocks
use macstab_chaos_testing_li.Prelude.{
  ℕ, pos, ◌≤◌, ◌≡◌, refl, some, List, [], ◌∷◌, Bytes, codes, bytes_eq, strip_prefix, All, length,
}
use macstab_chaos_testing_li.Common.Policy.Number.{parse_number}
use macstab_chaos_testing_li.Common.Policy.Word.{parse_word, is_empty}
use macstab_chaos_testing_li.Common.Policy.Probability.{parse_probability}
use macstab_chaos_testing_li.Common.Policy.Extract.{extract}
use macstab_chaos_testing_li.Common.Policy.Gates.{no_size}
use macstab_chaos_testing_li.Common.Status.{keep_line}
use macstab_chaos_testing_li.Common.Sample.{digits_from, sample_libc}
use macstab_chaos_testing_li.Common.Libc.{split_first, split_last}
use macstab_chaos_testing_li.Common.RuleLine.{trim, lookup_name}
use macstab_chaos_testing_li.Common.RuleFile.{accepted, broken, lines, judge}
use macstab_chaos_testing_li.Common.Snapshot.{reloading, unknown}
use macstab_chaos_testing_li.Time.Selector.{
  Selector, clock_gettime, clock, Clock, realtime, monotonic, monotonic_raw, realtime_coarse,
  monotonic_coarse, boottime, tai, process_cputime, thread_cputime, selector_parse,
}
use macstab_chaos_testing_li.Time.Rule.{
  Errno, einval, efault, eintr, eperm, enosys, eagain, Rule, regress, bare_rule, effect_allowed,
  parse_payload_probability, parse_offset, split_rule_fields, parse_line,
}
use macstab_chaos_testing_li.Time.Buffer.{max_rules, parse_buffer}
use macstab_chaos_testing_li.Time.Buffer.Bounds.{IsLoaded, parse_time_buffer-IsLoaded}
use macstab_chaos_testing_li.Time.Stamp.{normalize_mtime_hash}

-- the numbers of Linux
abbrev linux_clock : Clock → ℕ
linux_clock realtime = 0
linux_clock monotonic = 1
linux_clock process_cputime = 2
linux_clock thread_cputime = 3
linux_clock monotonic_raw = 4
linux_clock realtime_coarse = 5
linux_clock monotonic_coarse = 6
linux_clock boottime = 7
linux_clock tai = 11

abbrev linux_errno : Errno → ℕ
linux_errno eperm = 1
linux_errno eintr = 4
linux_errno eagain = 11
linux_errno efault = 14
linux_errno einval = 22
linux_errno enosys = 38

abbrev file : Bytes
file = codes "clock_gettime/monotonic:REGRESS:500@0.5\n"

abbrev one_clock : Selector
one_clock = record {
  kind = clock;
  target = some clock_gettime;
  clock_id = 1;
  selector_len = 23;
  text = codes "monotonic";
}

abbrev file_rules : List (Rule × Bytes)
file_rules =
    (
      record (bare_rule one_clock) {
        effect = regress;
        probability = record { over = 5; under = 10 };
        offset_ms = pos 500;
        call_size = no_size;
      },
      codes "clock_gettime/monotonic:REGRESS:500@0.5",
    )
    ∷ []

reads : parse_buffer sample_libc linux_clock linux_errno file ≡ accepted file_rules
unfolding parse_buffer judge lines keep_line extract parse_word parse_number is_empty parse_line
    parse_probability parse_payload_probability parse_offset effect_allowed split_rule_fields
    selector_parse lookup_name trim bytes_eq strip_prefix split_first split_last digits_from
reads = refl

parse_time_buffer-IsLoaded_example :
    (length file_rules ≤ max_rules)
    × All (λ r. IsLoaded sample_libc linux_clock linux_errno r.0) file_rules
parse_time_buffer-IsLoaded_example =
    parse_time_buffer-IsLoaded sample_libc linux_clock linux_errno file reads

-- a step back needs a clock of its own
no_clock :
    parse_line sample_libc linux_clock linux_errno (codes "clock_gettime:REGRESS:500") ≡ broken
unfolding parse_line effect_allowed split_rule_fields selector_parse lookup_name trim bytes_eq
    strip_prefix split_first
no_clock = refl

-- the stamp that the code moves onto the value of the claim
claimed_stamp : normalize_mtime_hash unknown ≡ reloading
unfolding normalize_mtime_hash
claimed_stamp = refl
