-- ===== src/Time/Buffer.antt =====
-- src/time/chaos_time_config.c, `chaos_time_config_parse_buffer`: a whole rule file; and the reload of
-- it. There is no test of a rule against the build.
pub mod Bounds
use macstab_chaos_testing_li.Prelude.{ℕ, true, refl, Bytes}
use macstab_chaos_testing_li.Common.Policy.Gates.{no_size}
use macstab_chaos_testing_li.Common.Libc.{Libc}
use macstab_chaos_testing_li.Common.RuleFile.{Grammar, Loaded, parse_file}
use macstab_chaos_testing_li.Common.Reload.{Library, State, Answers, refresh}
use macstab_chaos_testing_li.Time.Selector.{Clock}
use macstab_chaos_testing_li.Time.Rule.{Errno, Rule, parse_line}

-- `CHAOS_TIME_MAX_RULES`
abbrev pub max_rules : ℕ
max_rules = 256

module _ (libc : Libc) (clock_number : Clock → ℕ) (errno_number : Errno → ℕ) where
  -- what the loop of `chaos_time_config_parse_buffer` calls
  abbrev pub time_grammar : Grammar Rule
  time_grammar = record {
    parse_line = parse_line libc clock_number errno_number;
    with_policy = λ p r. record r { policy = p; call_size = no_size };
    supported = λ r. true;
    max_rules = max_rules;
  }

  unfoldable pub parse_buffer : Bytes → Loaded Rule
  unfolding parse_file
  parse_buffer buffer = parse_file time_grammar buffer

  -- what `chaos_time_config_refresh` calls, and the stores of `chaos_time_config_attach_hits`
  abbrev pub time_library : Library Rule
  time_library = record {
    grammar = time_grammar;
    with_hit = λ h g r. record r { hit = h; hit_generation = g };
    with_hit_twice = λ h k g j r. refl;
  }

  -- `chaos_time_config_refresh`
  unfoldable pub time_refresh : Answers → State Rule → State Rule
  unfolding refresh
  time_refresh a s = refresh time_library a s
