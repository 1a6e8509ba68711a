-- ===== src/Dns/Select/Winner.antt =====
-- The rule that libchaos-dns finds for a name.
use macstab_chaos_testing_li.Prelude.{List, Bytes}
use macstab_chaos_testing_li.Common.Ranked.Winner.{Selects, select_better-Selects}
use macstab_chaos_testing_li.Dns.Selector.{Domain}
use macstab_chaos_testing_li.Dns.Rule.{Effect, Rule}
use macstab_chaos_testing_li.Dns.Select.{rule_rank, rule_length, select_rule_domain}

-- The rule for a name or an address is of the effect and covers it; it has the highest rank of those that
-- do, of equal ranks the longest selector, and of these it is the first in the file. There is none
-- exactly if no rule of the effect covers it.
pub select_rule_domain-Selects :
    (rules : List Rule) (effect : Effect) (domain : Domain) (name : Bytes)
    → Selects
        (rule_rank effect domain name)
        rule_length
        rules
        (select_rule_domain rules effect domain name)
unfolding select_rule_domain
select_rule_domain-Selects rules effect domain name =
    select_better-Selects (rule_rank effect domain name) rule_length rules
