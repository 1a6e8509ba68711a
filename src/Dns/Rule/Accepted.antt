-- ===== src/Dns/Rule/Accepted.antt =====
-- What holds of every rule that `chaos_dns_config_parse_line` accepts.
use mathlib.Core.Path.{subst}
use macstab_chaos_testing_li.Prelude.{
  ◌≡◌, refl, sym, ap, ◌∙◌, true, ◌||◌, Option, none, some, [], ◌∷◌, arith, Bytes, ◌==◌, length,
  Bool-cases, Option-cases, inl, inr,
}
use macstab_chaos_testing_li.Common.Policy.Probability.{IsProbability}
use macstab_chaos_testing_li.Common.Libc.{Libc}
use macstab_chaos_testing_li.Common.RuleLine.{trim, strip_comment, lookup_name}
use macstab_chaos_testing_li.Common.RuleFile.{parsed_rule}
use macstab_chaos_testing_li.Dns.Selector.{Selector, selector_parse}
use macstab_chaos_testing_li.Dns.Fields.{split_rule_fields}
use macstab_chaos_testing_li.Dns.Rule.{
  gai, Rule, bare_rule, parse_gai_name, effect_allowed, as_parsed, effect_names, parse_effect,
  parse_fields, fields_rule, text_rule, parse_line,
}
use macstab_chaos_testing_li.Dns.Rule.Effects.{
  HasParameter, Effected, with_probability-Effected, every_domain, effect_rule-Effected,
}

-- A rule that the lookups can apply.
pub record IsRule (libc : Libc) (r : Rule) : Type 0 where
  pub stated : (text : Bytes) × (selector_parse libc text ≡ some r.selector)
  pub permitted : effect_allowed r.selector.domain r.effect ≡ true
  pub probable : IsProbability r.probability
  pub parameter : HasParameter libc r.effect r

module _ (libc : Libc) where
  parse_effect-Effected :
      (s : Selector) (name value : Bytes) {r : Rule}
      → parse_effect libc (bare_rule s) name value ≡ some r
      → Effected libc s r
  unfolding parse_effect effect_allowed
  parse_effect-Effected s name value h = elim (Option-cases (parse_gai_name name)) [
    | inr (e, named) ↦
        with_probability-Effected libc s gai (some e) value (every_domain libc s gai refl s.domain)
          (λ p. (e, refl)) (rw (named, parse_effect) at h)
    | inl other ↦ elim (Option-cases (lookup_name effect_names name)) [
      | inl missed ↦ absurd (ground (arith, rw (other, missed, parse_effect) at h))
      | inr (f, named) ↦ effect_rule-Effected libc s f value (rw (other, named, parse_effect) at h)
    ]
  ]

  parse_fields-IsRule :
      (selector effect value : Bytes) {r : Rule}
      → parse_fields libc selector effect value ≡ some r
      → IsRule libc r
  unfolding parse_fields
  parse_fields-IsRule selector effect value {r = r} h =
      elim (Bool-cases (length selector == 0 || length effect == 0 || length value == 0)) [
        | inl bad ↦ absurd (ground (arith, rw (bad, parse_fields) at h))
        | inr filled ↦ elim (Option-cases (selector_parse libc selector)) [
          | inl missed ↦ absurd (ground (arith, rw (filled, missed, parse_fields) at h))
          | inr (s, e) ↦
              let w = parse_effect-Effected s effect value (rw (filled, e, parse_fields) at h) in
              record {
                stated = (selector, e ∙ ap some (sym w.same_selector));
                permitted = rw w.same_selector w.permitted;
                probable = w.probable;
                parameter = w.parameter;
              }
        ]
      ]

  fields_rule-IsRule :
      (o : Option (Bytes × Bytes × Bytes)) {r : Rule}
      → as_parsed (fields_rule libc o) ≡ parsed_rule r
      → IsRule libc r
  unfolding fields_rule as_parsed
  fields_rule-IsRule none h = cc
  fields_rule-IsRule (some (selector, effect, value)) {r = r} h =
      elim (Option-cases (parse_fields libc selector effect value)) [
        | inl missed ↦ absurd (ground (arith, rw (missed, as_parsed) at h))
        | inr (q, e) ↦
            let h' : parsed_rule q ≡ parsed_rule r = rw (e, as_parsed) at h in
            let same : q ≡ r = cc in
            subst (IsRule libc) same (parse_fields-IsRule selector effect value e)
      ]

  text_rule-IsRule : (text : Bytes) {r : Rule} → text_rule libc text ≡ parsed_rule r → IsRule libc r
  unfolding text_rule
  text_rule-IsRule [] h = cc
  text_rule-IsRule (c ∷ s) h = fields_rule-IsRule (split_rule_fields (c ∷ s)) h

  -- Whatever the C library returns, a rule that `chaos_dns_config_parse_line` accepts has a selector that
  -- its parser reads, an effect that the selector's domain permits, a probability from 0 to 1, and
  -- what the effect needs: an EAI name, a latency of 32 bits, a text of 1 to 511 bytes (for OVERRIDE
  -- a valid list of addresses), or a limit from 1 up to 32 bits.
  pub parse_dns_line-IsRule :
      (line : Bytes) {r : Rule} → parse_line libc line ≡ parsed_rule r → IsRule libc r
  unfolding parse_line
  parse_dns_line-IsRule line h = text_rule-IsRule (trim (strip_comment line)) h
