-- ===== src/Io/Tests/Rules.antt =====
-- Runs and instances for rule lines and rule files.
use macstab_chaos_testing_li.Prelude.{
  ◌≡◌, ◌≤◌, refl, Bool, true, some, List, [], ◌∷◌, Bytes, codes, bytes_eq, strip_prefix, All,
  length,
}
use macstab_chaos_testing_li.Common.Policy.Number.{parse_number}
use macstab_chaos_testing_li.Common.Policy.Word.{no_policy, parse_word, is_empty}
use macstab_chaos_testing_li.Common.Policy.Probability.{parse_probability}
use macstab_chaos_testing_li.Common.Policy.Extract.{extract}
use macstab_chaos_testing_li.Common.Policy.Gates.{no_size}
use macstab_chaos_testing_li.Common.Status.{keep_line}
use macstab_chaos_testing_li.Common.Sample.{digits_from}
use macstab_chaos_testing_li.Common.RuleLine.{trim, parse_latency}
use macstab_chaos_testing_li.Common.RuleFile.{parsed_rule, broken, lines, accepted, judge}
use macstab_chaos_testing_li.Common.RuleFile.Outcome.{Tells}
use macstab_chaos_testing_li.Io.Rule.{
  write, Rule, bare_rule, latency, eio, parse_line, parse_operation, parse_errno_name,
  parse_io_probability, effect_allowed,
}
use macstab_chaos_testing_li.Io.Rule.Accepted.{IsRule, parse_line-IsRule}
use macstab_chaos_testing_li.Io.Buffer.{max_rules, io_grammar, parse_buffer}
use macstab_chaos_testing_li.Io.Buffer.Outcome.{parse_buffer-Tells}
use macstab_chaos_testing_li.Io.Buffer.Bounds.{IsLoaded, parse_buffer-IsLoaded}

abbrev pub any_rule : Rule → Bool
any_rule r = true

delay :
    parse_line (digits_from 0) (codes "/a : write : LATENCY : 20 # slow")
    ≡ parsed_rule (record (bare_rule (codes "/a") write) { effect = latency; latency_ms = 20 })
unfolding parse_line parse_operation parse_errno_name parse_latency effect_allowed trim bytes_eq
    digits_from
delay = refl

torn_read : parse_line (digits_from 0) (codes "/a:read:TORN:0.5") ≡ broken
unfolding parse_line parse_operation parse_errno_name parse_io_probability parse_probability
    effect_allowed trim bytes_eq
torn_read = refl

parse_line-IsRule_example :
    IsRule (record (bare_rule (codes "/a") write) { effect = latency; latency_ms = 20 })
parse_line-IsRule_example =
    parse_line-IsRule (digits_from 0) (codes "/a : write : LATENCY : 20 # slow") delay

abbrev pub file : Bytes
file = codes "# delays\n/a:write:EIO:1.0 @first=2\n\n"

abbrev file_rules : List (Rule × Bytes)
file_rules =
    (
      record (bare_rule (codes "/a") write) {
        errnum = some eio;
        probability = record { over = 1; under = 1 };
        policy = record no_policy { first = 2 };
        call_size = no_size;
      },
      codes "/a:write:EIO:1.0 @first=2",
    )
    ∷ []

reads : parse_buffer (digits_from 0) any_rule file ≡ accepted file_rules
unfolding parse_buffer judge lines keep_line extract parse_word parse_number is_empty parse_line
    parse_operation parse_errno_name parse_io_probability parse_probability effect_allowed trim
    bytes_eq strip_prefix
reads = refl

parse_buffer-Tells_example :
    Tells
      (io_grammar (digits_from 0) any_rule)
      0
      0
      (lines file)
      (parse_buffer (digits_from 0) any_rule file)
parse_buffer-Tells_example = parse_buffer-Tells (digits_from 0) any_rule file

parse_buffer-IsLoaded_example :
    (length file_rules ≤ max_rules) × All (λ r. IsLoaded (digits_from 0) any_rule r.0) file_rules
parse_buffer-IsLoaded_example = parse_buffer-IsLoaded (digits_from 0) any_rule file reads
