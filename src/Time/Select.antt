-- ===== src/Time/Select.antt =====
-- src/time/chaos_time_config.c: which rule of an effect applies to a call.
use macstab_chaos_testing_li.Prelude.{ℕ, ◌&&◌, Option, none, some, List, ◌==◌, if◌then◌else◌}
use macstab_chaos_testing_li.Common.Libc.{Libc}
use macstab_chaos_testing_li.Common.Ranked.{Best, select_better}
use macstab_chaos_testing_li.Common.Ranked.Winner.{Selects, select_better-Selects}
use macstab_chaos_testing_li.Common.Snapshot.{read_valid}
use macstab_chaos_testing_li.Common.Reload.{State, Answers, has_rules, snapshot}
use macstab_chaos_testing_li.Time.Selector.{Operation, Clock, selector_matches}
use macstab_chaos_testing_li.Time.Rule.{Effect, errno, latency, offset, regress, Errno, Rule}
use macstab_chaos_testing_li.Time.Buffer.{time_refresh}

-- `==` on `chaos_time_effect_t`, by its enumerators' numbers
abbrev pub number : Effect → ℕ
number errno = 0
number latency = 1
number offset = 2
number regress = 3

-- what the loop ranks a rule by, and compares of equal ranks
unfoldable pub rule_rank : Effect → Operation → ℕ → Rule → Option ℕ
rule_rank effect op id r =
    if number r.effect == number effect then selector_matches r.selector op id else none

abbrev pub rule_length : Rule → ℕ
rule_length r = r.selector.selector_len

-- `chaos_time_config_select_rule`
unfoldable pub select_rule : List Rule → Effect → Operation → ℕ → Option (Best Rule)
unfolding rule_rank select_better
select_rule rules effect op id = select_better (rule_rank effect op id) rule_length rules none

abbrev pub rule_of : Option (Best Rule) → Option Rule
rule_of none = none
rule_of (some b) = some b.rule

-- `chaos_time_config_match_loaded`, while no other thread reloads
unfoldable pub match_loaded : Effect → Operation → ℕ → State Rule → Option Rule
unfolding select_rule
match_loaded effect op id s =
    let n = snapshot s.active s in
    if n.parse_ok && read_valid n.sequence n.sequence
    then rule_of (select_rule n.rules effect op id)
    else none

-- `chaos_time_config_match`
unfoldable pub match_call :
    Libc
    → (Clock → ℕ)
    → (Errno → ℕ)
    → Effect
    → Operation
    → ℕ
    → Answers
    → State Rule
    → Option Rule × State Rule
unfolding time_refresh match_loaded
match_call libc clock_number errno_number effect op id a s =
    let s' = time_refresh libc clock_number errno_number a s in
    if has_rules s' then (match_loaded effect op id s', s') else (none, s')

-- The rule for a call is of the effect and covers the call; it has the highest rank of those that do, of
-- equal ranks the longest selector, and of these it is the first in the file.
select_rule_lem :
    (rules : List Rule) (effect : Effect) (op : Operation) (id : ℕ)
    → Selects (rule_rank effect op id) rule_length rules (select_rule rules effect op id)
unfolding select_rule
select_rule_lem rules effect op id =
    select_better-Selects (rule_rank effect op id) rule_length rules
