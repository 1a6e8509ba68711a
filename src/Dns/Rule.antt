-- ===== src/Dns/Rule.antt =====
-- src/dns/chaos_dns_config.h and src/dns/chaos_dns_config.c: one rule and the line that states it. An
-- EAI_* value is the name that stands for it, since <netdb.h> chooses the number.
pub mod Effects
pub mod Accepted
use macstab_chaos_testing_li.Prelude.{
  ℕ, ◌-◌, Bool, true, false, not, ◌&&◌, ◌||◌, Option, none, some, List, [], ◌∷◌, ◌++◌, Bytes, codes,
  bytes_eq, strip_prefix, ◌==◌, ltb, leb, if◌then◌else◌, length, take, drop,
}
use macstab_chaos_testing_li.Common.Policy.Word.{Policy, no_policy}
use macstab_chaos_testing_li.Common.Policy.Probability.{Ratio, parse_probability}
use macstab_chaos_testing_li.Common.Libc.{Libc}
use macstab_chaos_testing_li.Common.RuleLine.{
  trim, strip_comment, lookup_name, with_option, parse_latency,
}
use macstab_chaos_testing_li.Common.RuleFile.{Parsed, blank, parsed_rule, broken}
use macstab_chaos_testing_li.Dns.Selector.{Domain, lookup, reverse_lookup, Selector, selector_parse}
use macstab_chaos_testing_li.Dns.Value.{
  max_value, copy_text_value, parse_payload_probability, parse_limit, validate_override_value,
}
use macstab_chaos_testing_li.Dns.Fields.{split_rule_fields}

-- `chaos_dns_effect_t`, less CHAOS_DNS_EFFECT_INVALID
pub data Effect : Type 0 where
  gai latency rewrite service override filter_family limit shuffle : Effect

-- `chaos_dns_family_filter_t`, less CHAOS_DNS_FAMILY_INVALID
pub data Family : Type 0 where
  any_family inet4 inet6 : Family

-- the EAI_* values that a rule can name
pub data GaiError : Type 0 where
  eai_again eai_fail eai_noname eai_memory eai_system : GaiError

-- `chaos_dns_rule_t`; its field `limit` is `kept` here, and `hit` is the number of the slot in the pool, `none` is NULL.
pub record Rule : Type 0 where
  pub selector : Selector
  pub effect : Effect
  pub gai_error : Option GaiError
  pub probability : Ratio
  pub latency_ms : ℕ
  pub kept : ℕ
  pub family : Family
  pub text : Bytes
  pub policy : Policy
  pub call_size : ℕ
  pub hit : Option ℕ
  pub hit_generation : ℕ

-- `chaos_dns_effect_allowed`
unfoldable pub effect_allowed : Domain → Effect → Bool
effect_allowed lookup effect = true
effect_allowed reverse_lookup gai = true
effect_allowed reverse_lookup latency = true
effect_allowed reverse_lookup rewrite = true
effect_allowed reverse_lookup service = true
effect_allowed reverse_lookup _ = false

abbrev pub family_names : List (Bytes × Family)
family_names =
    (codes "inet4", inet4)
    ∷ (codes "ipv4", inet4)
    ∷ (codes "inet6", inet6)
    ∷ (codes "ipv6", inet6)
    ∷ (codes "any", any_family)
    ∷ []

-- `chaos_dns_parse_family_filter`
unfoldable pub parse_family_filter : Bytes → Option Family
unfolding lookup_name
parse_family_filter text = lookup_name family_names text

abbrev pub gai_names : List (Bytes × GaiError)
gai_names =
    (codes "EAI_AGAIN", eai_again)
    ∷ (codes "EAI_FAIL", eai_fail)
    ∷ (codes "EAI_NONAME", eai_noname)
    ∷ (codes "EAI_MEMORY", eai_memory)
    ∷ (codes "EAI_SYSTEM", eai_system)
    ∷ []

-- `chaos_dns_parse_gai_name`
unfoldable pub parse_gai_name : Bytes → Option GaiError
unfolding lookup_name
parse_gai_name text = lookup_name gai_names text

-- What `memset` and the selector leave in the rule.
abbrev pub bare_rule : Selector → Rule
bare_rule selector = record {
  selector = selector;
  effect = gai;
  gai_error = none;
  probability = record { over = 0; under = 1 };
  latency_ms = 0;
  kept = 0;
  family = any_family;
  text = [];
  policy = no_policy;
  call_size = 0;
  hit = none;
  hit_generation = 0;
}

-- the rule of a value that is a probability alone
unfoldable pub with_probability : Rule → Effect → Option GaiError → Bytes → Option Rule
unfolding with_option
with_probability rule effect error value =
    with_option (parse_probability value)
      (λ p. record rule { effect = effect; gai_error = error; probability = p })

-- the rule of a value with a payload, which `fill` stores
unfoldable pub with_payload : Bytes → (Bytes → Ratio → Option Rule) → Option Rule
unfolding parse_payload_probability
with_payload value fill = elim (parse_payload_probability value) [
  | none ↦ none
  | some (payload, p) ↦ fill payload p
]

-- REWRITE, SERVICE and OVERRIDE keep the payload.
unfoldable pub keep_text : Rule → Effect → Bytes → Ratio → Option Rule
unfolding copy_text_value with_option
keep_text rule effect payload p =
    with_option (copy_text_value payload max_value)
      (λ text. record rule { effect = effect; probability = p; text = text })

unfoldable pub keep_family : Rule → Bytes → Ratio → Option Rule
unfolding parse_family_filter with_option
keep_family rule payload p =
    with_option (parse_family_filter payload)
      (λ f. record rule { effect = filter_family; probability = p; family = f })

abbrev pub effect_names : List (Bytes × Effect)
effect_names =
    (codes "LATENCY", latency)
    ∷ (codes "REWRITE", rewrite)
    ∷ (codes "SERVICE", service)
    ∷ (codes "OVERRIDE", override)
    ∷ (codes "FILTER_FAMILY", filter_family)
    ∷ (codes "LIMIT", limit)
    ∷ (codes "SHUFFLE", shuffle)
    ∷ []

-- `if (!chaos_dns_effect_allowed(…)) return -1;`
unfoldable pub allowed_only : Selector → Effect → Option Rule → Option Rule
allowed_only s effect r = if effect_allowed s.domain effect then r else none

unfoldable pub as_parsed : Option Rule → Parsed Rule
as_parsed none = broken
as_parsed (some r) = parsed_rule r

module _ (libc : Libc) where
  unfoldable pub keep_latency : Rule → Bytes → Ratio → Option Rule
  unfolding with_option
  keep_latency rule payload p =
      with_option (parse_latency libc.strtoul payload)
        (λ ms. record rule { effect = latency; probability = p; latency_ms = ms })

  unfoldable pub keep_override : Rule → Bytes → Ratio → Option Rule
  unfolding validate_override_value keep_text
  keep_override rule payload p =
      if validate_override_value libc payload then keep_text rule override payload p else none

  unfoldable pub keep_limit : Rule → Bytes → Ratio → Option Rule
  unfolding parse_limit with_option
  keep_limit rule payload p =
      with_option (parse_limit libc payload)
        (λ n. record rule { effect = limit; probability = p; kept = n })

  -- the branches on the second field, by the effect that it names
  unfoldable pub effect_rule : Effect → Rule → Bytes → Option Rule
  unfolding with_payload with_probability keep_text keep_family keep_latency keep_override
      keep_limit allowed_only
  effect_rule gai rule value = none
  effect_rule latency rule value = with_payload value (keep_latency rule)
  effect_rule rewrite rule value = with_payload value (keep_text rule rewrite)
  effect_rule service rule value = with_payload value (keep_text rule service)
  effect_rule override rule value =
      allowed_only rule.selector override (with_payload value (keep_override rule))
  effect_rule filter_family rule value =
      allowed_only rule.selector filter_family (with_payload value (keep_family rule))
  effect_rule limit rule value =
      allowed_only rule.selector limit (with_payload value (keep_limit rule))
  effect_rule shuffle rule value =
      allowed_only rule.selector shuffle (with_probability rule shuffle none value)

  unfoldable pub parse_effect : Rule → Bytes → Bytes → Option Rule
  unfolding effect_rule with_probability lookup_name
  parse_effect rule name value = elim (parse_gai_name name) [
    | some e ↦ with_probability rule gai (some e) value
    | none ↦ elim (lookup_name effect_names name) [
      | none ↦ none
      | some effect ↦ effect_rule effect rule value
    ]
  ]

  -- what follows the splitting of the line
  unfoldable pub parse_fields : Bytes → Bytes → Bytes → Option Rule
  unfolding parse_effect
  parse_fields selector effect value =
      if length selector == 0 || length effect == 0 || length value == 0
      then none
      else elim (selector_parse libc selector) [
        | none ↦ none
        | some s ↦ parse_effect (bare_rule s) effect value
      ]

  unfoldable pub fields_rule : Option (Bytes × Bytes × Bytes) → Option Rule
  unfolding parse_fields
  fields_rule none = none
  fields_rule (some (selector, effect, value)) = parse_fields selector effect value

  unfoldable pub text_rule : Bytes → Parsed Rule
  unfolding fields_rule split_rule_fields as_parsed
  text_rule [] = blank
  text_rule (c ∷ s) = as_parsed (fields_rule (split_rule_fields (c ∷ s)))

  -- `chaos_dns_config_parse_line`
  unfoldable pub parse_line : Bytes → Parsed Rule
  unfolding text_rule trim strip_comment
  parse_line line = text_rule (trim (strip_comment line))
