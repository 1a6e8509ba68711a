-- ===== src/Dns/Buffer.antt =====
-- src/dns/chaos_dns_config.c, `chaos_dns_config_parse_buffer`: a whole rule file. There is no test of a
-- rule against the build.
pub mod Bounds
use macstab_chaos_testing_li.Prelude.{ℕ, true, Bytes}
use macstab_chaos_testing_li.Common.Policy.Gates.{no_size}
use macstab_chaos_testing_li.Common.Libc.{Libc}
use macstab_chaos_testing_li.Common.RuleFile.{Grammar, Loaded, parse_file}
use macstab_chaos_testing_li.Dns.Rule.{Rule, parse_line}

-- `CHAOS_DNS_MAX_RULES`
abbrev pub max_rules : ℕ
max_rules = 256

module _ (libc : Libc) where
  -- what the loop of `chaos_dns_config_parse_buffer` calls
  abbrev pub dns_grammar : Grammar Rule
  dns_grammar = record {
    parse_line = parse_line libc;
    with_policy = λ p r. record r { policy = p; call_size = no_size };
    supported = λ r. true;
    max_rules = max_rules;
  }

  unfoldable pub parse_buffer : Bytes → Loaded Rule
  unfolding parse_file
  parse_buffer buffer = parse_file dns_grammar buffer
