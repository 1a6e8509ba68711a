-- ===== src/Net/Reload.antt =====
-- src/net/chaos_net_config.c: the reload of the rule file, and the check in front of a call.
use macstab_chaos_testing_li.Prelude.{Bool, Option, none, refl, if◌then◌else◌}
use macstab_chaos_testing_li.Common.Libc.{Libc}
use macstab_chaos_testing_li.Common.Snapshot.{read_valid}
use macstab_chaos_testing_li.Common.Reload.{Library, State, Answers, has_rules, snapshot, refresh}
use macstab_chaos_testing_li.Net.Endpoint.{Endpoint}
use macstab_chaos_testing_li.Net.Rule.{Operation, Rule}
use macstab_chaos_testing_li.Net.Buffer.{net_grammar}
use macstab_chaos_testing_li.Net.Select.{View, match_endpoint_loaded}

-- what the match functions read of the active snapshot, while no other thread reloads
abbrev pub view_of : State Rule → View
view_of s =
    let n = snapshot s.active s in
    record {
      parse_ok = n.parse_ok;
      rules = n.rules;
      still_valid = read_valid n.sequence n.sequence;
    }

module _ (libc : Libc) (supported : Rule → Bool) where
  -- what `chaos_net_config_refresh` calls, and the stores of `chaos_net_config_attach_hits`
  abbrev pub net_library : Library Rule
  net_library = record {
    grammar = net_grammar libc supported;
    with_hit = λ h g r. record r { hit = h; hit_generation = g };
    with_hit_twice = λ h k g j r. refl;
  }

  -- `chaos_net_config_refresh`, by way of `chaos_net_config_prepare`, which restores errno
  unfoldable pub net_refresh : Answers → State Rule → State Rule
  unfolding refresh
  net_refresh a s = refresh net_library a s

  -- `chaos_net_config_match_endpoint`
  unfoldable pub match_endpoint :
      Operation → Endpoint → Answers → State Rule → Option Rule × State Rule
  unfolding net_refresh match_endpoint_loaded
  match_endpoint op e a s =
      let s' = net_refresh a s in
      if has_rules s' then (match_endpoint_loaded (view_of s') op e, s') else (none, s')
