-- ===== src/Net/Tests.antt =====
-- Runs and instances for libchaos-net.
mod Reloads
use macstab_chaos_testing_li.Prelude.{
  arith, ℕ, ◌≤◌, ◌≡◌, ◌↔◌, refl, Bool, true, false, Option, none, some, List, [], ◌∷◌, Bytes, codes,
  bytes_eq, strip_prefix, All, length,
}
use macstab_chaos_testing_li.Common.Policy.Number.{parse_number}
use macstab_chaos_testing_li.Common.Policy.Word.{no_policy, parse_word, is_empty}
use macstab_chaos_testing_li.Common.Policy.Probability.{parse_probability}
use macstab_chaos_testing_li.Common.Policy.Extract.{extract}
use macstab_chaos_testing_li.Common.Policy.Gates.{no_size}
use macstab_chaos_testing_li.Common.Status.{keep_line}
use macstab_chaos_testing_li.Common.Sample.{digits_from, one_address, home4, sample_libc}
use macstab_chaos_testing_li.Common.Libc.{Lacks, split_last}
use macstab_chaos_testing_li.Common.RuleLine.{trim, parse_latency}
use macstab_chaos_testing_li.Common.RuleFile.{accepted, parsed_rule, broken, lines, judge}
use macstab_chaos_testing_li.Common.Ranked.{select_better}
use macstab_chaos_testing_li.Common.Ranked.Winner.{Selects, select_better-Selects}
use macstab_chaos_testing_li.Net.Endpoint.{
  Endpoint, tcp4, unix, no_endpoint, parse_selector, endpoint_matches, selector_rank,
}
use macstab_chaos_testing_li.Net.Endpoint.Covers.{Covers, endpoint_matches_iff}
use macstab_chaos_testing_li.Net.Rule.{
  Rule, recv, connect, trickle, latency, bare_rule, parse_operation, parse_errno_name,
  effect_allowed, selector_allowed, split_rule_fields, cut_last, parse_line,
}
use macstab_chaos_testing_li.Net.Rule.Fields.{joined, cut_last_iff}
use macstab_chaos_testing_li.Net.Buffer.{max_rules, parse_buffer}
use macstab_chaos_testing_li.Net.Buffer.Bounds.{IsLoaded, parse_net_buffer-IsLoaded}
use macstab_chaos_testing_li.Net.Select.{
  View, rule_rank, rule_length, match_final_loaded, match_either_loaded,
}
use macstab_chaos_testing_li.Net.Select.Winner.{match_final_decides}

abbrev host_selector : Endpoint
host_selector = record no_endpoint { kind = tcp4; selector_len = 18; port = 80; ipv4 = home4 }

abbrev host : Endpoint
host = record no_endpoint { kind = tcp4; port = 80; ipv4 = home4 }

-- the other end of the connection
abbrev peer : Endpoint
peer = record no_endpoint { kind = tcp4; port = 4000; ipv4 = home4 }

selector_read : parse_selector sample_libc (codes "tcp4://10.0.0.1:80") ≡ some host_selector
unfolding parse_selector strip_prefix bytes_eq digits_from one_address split_last
selector_read = refl

path_read :
    parse_selector sample_libc (codes "unix:///run/x")
    ≡ some (record no_endpoint { kind = unix; selector_len = 13; text = codes "/run/x" })
unfolding parse_selector strip_prefix bytes_eq
path_read = refl

-- an IPv6 wildcard needs a port
no_port : parse_selector sample_libc (codes "tcp6://*") ≡ none
unfolding parse_selector strip_prefix bytes_eq
no_port = refl

endpoint_matches_iff_example :
    (endpoint_matches host_selector host ≡ some 3)
    ↔ (Covers tcp4 host_selector host × (3 ≡ selector_rank host_selector))
endpoint_matches_iff_example = endpoint_matches_iff host_selector host 3

cut_last_iff_example :
    (cut_last (codes "tcp6://[::1]:80:recv:DUP:1")
      ≡ some (codes "tcp6://[::1]:80", codes "recv", codes "DUP", codes "1"))
    ↔ ((codes "tcp6://[::1]:80:recv:DUP:1"
          ≡ joined (codes "tcp6://[::1]:80") (codes "recv") (codes "DUP") (codes "1"))
        × (Lacks b':' (codes "recv") × (Lacks b':' (codes "DUP") × Lacks b':' (codes "1"))))
cut_last_iff_example =
    cut_last_iff (codes "tcp6://[::1]:80:recv:DUP:1") (codes "tcp6://[::1]:80") (codes "recv")
      (codes "DUP") (codes "1")

abbrev pub any_rule : Rule → Bool
any_rule r = true

abbrev pub file : Bytes
file = codes "tcp4://10.0.0.1:80:recv:TRICKLE:7\n"

abbrev dripping : Rule
dripping = record (bare_rule host_selector recv) {
  effect = trickle;
  probability = record { over = 1; under = 1 };
  chunk_bytes = 7;
  call_size = no_size;
}

abbrev pub file_rules : List (Rule × Bytes)
file_rules = (dripping, codes "tcp4://10.0.0.1:80:recv:TRICKLE:7") ∷ []

pub reads : parse_buffer sample_libc any_rule file ≡ accepted file_rules
unfolding parse_buffer judge lines keep_line extract parse_word parse_number is_empty parse_line
    parse_operation parse_errno_name parse_probability parse_latency effect_allowed selector_allowed
    split_rule_fields parse_selector trim bytes_eq strip_prefix digits_from one_address split_last
reads = refl

parse_net_buffer-IsLoaded_example :
    (length file_rules ≤ max_rules) × All (λ r. IsLoaded sample_libc any_rule r.0) file_rules
parse_net_buffer-IsLoaded_example = parse_net_buffer-IsLoaded sample_libc any_rule file reads

-- only a receive can drip
no_drip : parse_line sample_libc (codes "*:send:TRICKLE:7") ≡ broken
unfolding parse_line parse_operation parse_errno_name parse_latency effect_allowed selector_allowed
    split_rule_fields parse_selector trim bytes_eq strip_prefix digits_from split_last
no_drip = refl

abbrev everywhere : Rule
everywhere = bare_rule (record no_endpoint { selector_len = 1 }) recv

abbrev loaded : View
loaded = record { parse_ok = true; rules = everywhere ∷ dripping ∷ []; still_valid = true }

decided : match_final_loaded loaded recv host ≡ some dripping
unfolding match_final_loaded endpoint_matches bytes_eq
decided = refl

match_final_decides_example :
    match_either_loaded loaded recv (some host) (some peer) ≡ some dripping
match_final_decides_example = match_final_decides loaded recv host (some peer) decided

select_better-Selects_example :
    Selects
      (rule_rank recv host)
      rule_length
      (everywhere ∷ dripping ∷ [])
      (select_better (rule_rank recv host) rule_length (everywhere ∷ dripping ∷ []) none)
select_better-Selects_example =
    select_better-Selects (rule_rank recv host) rule_length (everywhere ∷ dripping ∷ [])
