-- ===== src/Dns/Tests.antt =====
-- Runs and instances for libchaos-dns.
use macstab_chaos_testing_li.Prelude.{
  ◌≤◌, ◌≡◌, ◌≢◌, ◌↔◌, refl, true, false, none, some, List, [], ◌∷◌, Bytes, codes, bytes_eq,
  strip_prefix, All, length,
}
use macstab_chaos_testing_li.Common.Policy.Number.{parse_number}
use macstab_chaos_testing_li.Common.Policy.Word.{parse_word, is_empty}
use macstab_chaos_testing_li.Common.Policy.Probability.{parse_probability}
use macstab_chaos_testing_li.Common.Policy.Extract.{extract}
use macstab_chaos_testing_li.Common.Policy.Gates.{no_size}
use macstab_chaos_testing_li.Common.Status.{keep_line}
use macstab_chaos_testing_li.Common.Sample.{one_address, sample_libc}
use macstab_chaos_testing_li.Common.Libc.{split_first, split_last}
use macstab_chaos_testing_li.Common.RuleLine.{trim}
use macstab_chaos_testing_li.Common.RuleFile.{accepted, broken, lines, judge}
use macstab_chaos_testing_li.Dns.Selector.{
  Selector, suffix, exact, lookup, reverse_lookup, selector_parse, selector_matches,
}
use macstab_chaos_testing_li.Dns.Selector.Covers.{Covers, own_rank, selector_matches_iff}
use macstab_chaos_testing_li.Dns.Value.{parse_payload_probability, validate_override_value}
use macstab_chaos_testing_li.Dns.Fields.{split_rule_fields}
use macstab_chaos_testing_li.Dns.Rule.{
  Rule, rewrite, bare_rule, parse_gai_name, effect_allowed, parse_line,
}
use macstab_chaos_testing_li.Dns.Buffer.{max_rules, parse_buffer}
use macstab_chaos_testing_li.Dns.Buffer.Bounds.{IsLoaded, parse_dns_buffer-IsLoaded}
use macstab_chaos_testing_li.Dns.Select.{View, match_loaded}

abbrev below_example : Selector
below_example = record {
  kind = suffix;
  domain = lookup;
  selector_len = 19;
  text = codes "example.com";
}

selector_read : selector_parse sample_libc (codes "dns://*.example.com") ≡ some below_example
unfolding selector_parse strip_prefix bytes_eq split_first
selector_read = refl

-- an address is kept as `inet_ntop` writes it
address_read :
    selector_parse sample_libc (codes "rdns://[::1]")
    ≡ some (record { kind = exact; domain = reverse_lookup; selector_len = 12; text = codes "::1" })
unfolding selector_parse strip_prefix bytes_eq one_address
address_read = refl

selector_matches_iff_example :
    (selector_matches below_example lookup (codes "WWW.Example.com") ≡ some 2) ↔ (
      ((codes "WWW.Example.com" ≢ []) × (lookup ≡ lookup))
      × (Covers suffix lookup (codes "example.com") (codes "WWW.Example.com")
          × (2 ≡ own_rank suffix)))
selector_matches_iff_example = selector_matches_iff below_example lookup (codes "WWW.Example.com") 2

covered : selector_matches below_example lookup (codes "WWW.Example.com") ≡ some 2
unfolding selector_matches
covered = refl

-- no label ends inside another
no_label : selector_matches below_example lookup (codes "wwwexample.com") ≡ none
unfolding selector_matches
no_label = refl

abbrev file : Bytes
file = codes "dns://*.example.com:REWRITE:db.local@0.5\n"

abbrev rewritten : Rule
rewritten = record (bare_rule below_example) {
  effect = rewrite;
  probability = record { over = 5; under = 10 };
  text = codes "db.local";
  call_size = no_size;
}

abbrev file_rules : List (Rule × Bytes)
file_rules = (rewritten, codes "dns://*.example.com:REWRITE:db.local@0.5") ∷ []

reads : parse_buffer sample_libc file ≡ accepted file_rules
unfolding parse_buffer judge lines keep_line extract parse_word parse_number is_empty parse_line
    parse_gai_name parse_probability parse_payload_probability effect_allowed split_rule_fields
    selector_parse trim bytes_eq strip_prefix split_first split_last
reads = refl

parse_dns_buffer-IsLoaded_example :
    (length file_rules ≤ max_rules) × All (λ r. IsLoaded sample_libc r.0) file_rules
parse_dns_buffer-IsLoaded_example = parse_dns_buffer-IsLoaded sample_libc file reads

-- an empty token between commas is refused, and one behind the last comma is not
empty_token : validate_override_value sample_libc (codes "10.0.0.1,,::1") ≡ false
unfolding validate_override_value trim bytes_eq one_address
empty_token = refl

last_comma : validate_override_value sample_libc (codes "10.0.0.1,") ≡ true
unfolding validate_override_value trim bytes_eq one_address
last_comma = refl

-- an answer cannot be put in the place of a reverse lookup
no_override : parse_line sample_libc (codes "rdns://*:OVERRIDE:10.0.0.1") ≡ broken
unfolding parse_line parse_gai_name effect_allowed split_rule_fields selector_parse trim bytes_eq
    strip_prefix split_first
no_override = refl

abbrev loaded : View
loaded = record { parse_ok = true; rules = rewritten ∷ []; still_valid = true }

answered : match_loaded loaded rewrite (codes "a.example.com") ≡ some rewritten
unfolding match_loaded selector_matches
answered = refl
