-- ===== src/Dns/Select.antt =====
-- src/dns/chaos_dns_config.c: which rule of an effect applies to a name or an address.
pub mod Winner
use macstab_chaos_testing_li.Prelude.{
  ℕ, Bool, ◌&&◌, Option, none, some, List, Bytes, ◌==◌, if◌then◌else◌, length, not,
}
use macstab_chaos_testing_li.Common.Ranked.{Best, select_better}
use macstab_chaos_testing_li.Dns.Selector.{Domain, lookup, reverse_lookup, selector_matches}
use macstab_chaos_testing_li.Dns.Rule.{
  Effect, gai, latency, rewrite, service, override, filter_family, limit, shuffle, Rule,
}

-- `==` on `chaos_dns_effect_t`, by its enumerators' numbers
abbrev pub number : Effect → ℕ
number gai = 0
number latency = 1
number rewrite = 2
number service = 3
number override = 4
number filter_family = 5
number limit = 6
number shuffle = 7

-- what the loop ranks a rule by, and compares of equal ranks
unfoldable pub rule_rank : Effect → Domain → Bytes → Rule → Option ℕ
rule_rank effect domain name r =
    if number r.effect == number effect then selector_matches r.selector domain name else none

abbrev pub rule_length : Rule → ℕ
rule_length r = r.selector.selector_len

-- `chaos_dns_config_select_rule_domain`
unfoldable pub select_rule_domain : List Rule → Effect → Domain → Bytes → Option (Best Rule)
unfolding rule_rank select_better
select_rule_domain rules effect domain name =
    select_better (rule_rank effect domain name) rule_length rules none

-- What the match functions read: `parse_ok`, the rules, and `chaos_snapshot_read_valid` afterwards.
pub record View : Type 0 where
  pub parse_ok : Bool
  pub rules : List Rule
  pub still_valid : Bool

abbrev pub rule_of : Option (Best Rule) → Option Rule
rule_of none = none
rule_of (some b) = some b.rule

-- `chaos_dns_config_match_loaded`, by way of `chaos_dns_config_select_rule`
unfoldable pub match_loaded : View → Effect → Bytes → Option Rule
unfolding select_rule_domain
match_loaded v effect name =
    if v.parse_ok && v.still_valid
    then rule_of (select_rule_domain v.rules effect lookup name)
    else none

-- `chaos_dns_config_match_reverse_loaded`, by way of `chaos_dns_config_select_reverse_rule`
unfoldable pub match_reverse_loaded : View → Effect → Bytes → Option Rule
unfolding select_rule_domain
match_reverse_loaded v effect address =
    if v.parse_ok && v.still_valid
    then rule_of (select_rule_domain v.rules effect reverse_lookup address)
    else none
