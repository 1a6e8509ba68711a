-- ===== src/Net/Buffer.antt =====
-- src/net/chaos_net_config.c, `chaos_net_config_parse_buffer`: a whole rule file. `supported` is
-- CHAOS_NET_RULE_SUPPORTED, which chaos-init defines for itself.
pub mod Bounds
use macstab_chaos_testing_li.Prelude.{ℕ, Bool, Bytes}
use macstab_chaos_testing_li.Common.Policy.Gates.{no_size}
use macstab_chaos_testing_li.Common.Libc.{Libc}
use macstab_chaos_testing_li.Common.RuleFile.{Grammar, Loaded, parse_file}
use macstab_chaos_testing_li.Net.Rule.{Rule, parse_line}

-- `CHAOS_NET_MAX_RULES`
abbrev pub max_rules : ℕ
max_rules = 256

module _ (libc : Libc) (supported : Rule → Bool) where
  -- what the loop of `chaos_net_config_parse_buffer` calls
  abbrev pub net_grammar : Grammar Rule
  net_grammar = record {
    parse_line = parse_line libc;
    with_policy = λ p r. record r { policy = p; call_size = no_size };
    supported = supported;
    max_rules = max_rules;
  }

  unfoldable pub parse_buffer : Bytes → Loaded Rule
  unfolding parse_file
  parse_buffer buffer = parse_file net_grammar buffer
