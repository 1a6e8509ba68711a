-- ===== src/Dns/Reload.antt =====
-- src/dns/chaos_dns_config.c: the reload of the rule file, and the check in front of a call.
use macstab_chaos_testing_li.Prelude.{Option, none, Bytes, refl, ◌==◌, length, if◌then◌else◌}
use macstab_chaos_testing_li.Common.Libc.{Libc}
use macstab_chaos_testing_li.Common.Snapshot.{read_valid}
use macstab_chaos_testing_li.Common.Reload.{Library, State, Answers, has_rules, snapshot, refresh}
use macstab_chaos_testing_li.Dns.Rule.{Effect, Rule}
use macstab_chaos_testing_li.Dns.Buffer.{dns_grammar}
use macstab_chaos_testing_li.Dns.Select.{View, match_loaded, match_reverse_loaded}

-- what the match functions read of the active snapshot, while no other thread reloads
abbrev pub view_of : State Rule → View
view_of s =
    let n = snapshot s.active s in
    record {
      parse_ok = n.parse_ok;
      rules = n.rules;
      still_valid = read_valid n.sequence n.sequence;
    }

module _ (libc : Libc) where
  -- what `chaos_dns_config_refresh` calls, and the stores of `chaos_dns_config_attach_hits`
  abbrev pub dns_library : Library Rule
  dns_library = record {
    grammar = dns_grammar libc;
    with_hit = λ h g r. record r { hit = h; hit_generation = g };
    with_hit_twice = λ h k g j r. refl;
  }

  -- `chaos_dns_config_refresh`, by way of `chaos_dns_config_prepare`, which restores errno
  unfoldable pub dns_refresh : Answers → State Rule → State Rule
  unfolding refresh
  dns_refresh a s = refresh dns_library a s

  -- `chaos_dns_config_match`
  unfoldable pub match_name : Effect → Bytes → Answers → State Rule → Option Rule × State Rule
  unfolding dns_refresh match_loaded
  match_name effect name a s =
      if length name == 0
      then (none, s)
      else (let s' = dns_refresh a s in
          if has_rules s' then (match_loaded (view_of s') effect name, s') else (none, s'))

  -- `chaos_dns_config_match_reverse`
  unfoldable pub match_reverse : Effect → Bytes → Answers → State Rule → Option Rule × State Rule
  unfolding dns_refresh match_reverse_loaded
  match_reverse effect address a s =
      if length address == 0
      then (none, s)
      else (let s' = dns_refresh a s in
          if has_rules s'
          then (match_reverse_loaded (view_of s') effect address, s')
          else (none, s'))
