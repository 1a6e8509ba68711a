-- ===== src/Io/Buffer.antt =====
-- src/config/chaos_io_config.c, `chaos_io_config_parse_buffer`: a whole rule file. `strtoul` is the C
-- library's, and `supported` is CHAOS_IO_RULE_SUPPORTED, which chaos-init defines for itself.
pub mod Outcome
pub mod Bounds
use macstab_chaos_testing_li.Prelude.{ℕ, Bool, Bytes}
use macstab_chaos_testing_li.Common.Policy.Gates.{no_size}
use macstab_chaos_testing_li.Common.RuleFile.{Grammar, Loaded, parse_file}
use macstab_chaos_testing_li.Io.Rule.{Rule, parse_line}

-- `CHAOS_IO_MAX_RULES`
abbrev pub max_rules : ℕ
max_rules = 256

module _ (strtoul : Bytes → ℕ × Bytes) (supported : Rule → Bool) where
  -- what the loop of `chaos_io_config_parse_buffer` calls
  abbrev pub io_grammar : Grammar Rule
  io_grammar = record {
    parse_line = parse_line strtoul;
    with_policy = λ p r. record r { policy = p; call_size = no_size };
    supported = supported;
    max_rules = max_rules;
  }

  unfoldable pub parse_buffer : Bytes → Loaded Rule
  unfolding parse_file
  parse_buffer buffer = parse_file io_grammar buffer
