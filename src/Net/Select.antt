-- ===== src/Net/Select.antt =====
-- src/net/chaos_net_config.c: which rule applies to an endpoint, or to one of two. The snapshot is the
-- published one, and whether it was replaced during the search is an argument.
pub mod Winner
use macstab_chaos_testing_li.Prelude.{
  ℕ, Bool, true, false, not, ◌&&◌, ◌||◌, Option, none, some, List, [], ◌∷◌, ◌==◌, if◌then◌else◌,
}
use macstab_chaos_testing_li.Common.Ranked.{Best, higher, select_better}
use macstab_chaos_testing_li.Net.Endpoint.{Endpoint, endpoint_matches, selector_rank}
use macstab_chaos_testing_li.Net.Rule.{
  Operation, bind, listen, connect, accept, socket, shutdown, poll, send, recv, close, Rule,
}

-- `==` on `chaos_net_operation_t`, by its enumerators' numbers
abbrev pub number : Operation → ℕ
number bind = 0
number listen = 1
number connect = 2
number accept = 3
number socket = 4
number shutdown = 5
number poll = 6
number send = 7
number recv = 8
number close = 9

-- what the loop ranks a rule by, and compares of equal ranks
unfoldable pub rule_rank : Operation → Endpoint → Rule → Option ℕ
rule_rank op e r = if number r.operation == number op then endpoint_matches r.selector e else none

abbrev pub rule_length : Rule → ℕ
rule_length r = r.selector.selector_len

-- `chaos_net_config_select_endpoint_rule`
unfoldable pub select_endpoint_rule : List Rule → Operation → Endpoint → Option (Best Rule)
unfolding rule_rank select_better
select_endpoint_rule rules op e = select_better (rule_rank op e) rule_length rules none

-- What the match functions read: `parse_ok`, the rules, and `chaos_snapshot_read_valid` afterwards.
pub record View : Type 0 where
  pub parse_ok : Bool
  pub rules : List Rule
  pub still_valid : Bool

abbrev pub rule_of : Option (Best Rule) → Option Rule
rule_of none = none
rule_of (some b) = some b.rule

-- `chaos_net_config_match_endpoint_loaded`
unfoldable pub match_endpoint_loaded : View → Operation → Endpoint → Option Rule
unfolding select_endpoint_rule
match_endpoint_loaded v op e =
    if v.parse_ok && v.still_valid then rule_of (select_endpoint_rule v.rules op e) else none

unfoldable pub any_of_operation : Operation → List Rule → Bool
any_of_operation op [] = false
any_of_operation op (r ∷ rs) = number r.operation == number op || any_of_operation op rs

-- `chaos_net_config_targets_loaded`
unfoldable pub targets_loaded : View → Operation → Bool
unfolding any_of_operation
targets_loaded v op = v.parse_ok && (any_of_operation op v.rules || not v.still_valid)

-- the second loop of `chaos_net_config_match_final_loaded`: a rule that another endpoint could bring
unfoldable pub may_be_beaten : Operation → Best Rule → List Rule → Bool
unfolding selector_rank
may_be_beaten op best [] = false
may_be_beaten op best (r ∷ rs) =
    number r.operation == number op
      && higher (selector_rank r.selector) (rule_length r) best.rank best.length
    || may_be_beaten op best rs

-- `chaos_net_config_match_final_loaded`
unfoldable pub match_final_loaded : View → Operation → Endpoint → Option Rule
unfolding select_endpoint_rule may_be_beaten
match_final_loaded v op e =
    if not v.parse_ok then none else elim (select_endpoint_rule v.rules op e) [
      | none ↦ none
      | some best ↦
          if may_be_beaten op best v.rules || not v.still_valid then none else some best.rule
    ]

-- the search for one end, if there is one
unfoldable pub select_end :
    List Rule → Operation → Option Endpoint → Option (Best Rule) → Option (Best Rule)
unfolding select_better rule_rank
select_end rules op none best = best
select_end rules op (some e) best = select_better (rule_rank op e) rule_length rules best

-- `chaos_net_config_match_either_loaded`
unfoldable pub match_either_loaded :
    View → Operation → Option Endpoint → Option Endpoint → Option Rule
unfolding select_end
match_either_loaded v op first second =
    if v.parse_ok && v.still_valid
    then rule_of (select_end v.rules op second (select_end v.rules op first none))
    else none
