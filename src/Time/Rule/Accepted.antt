-- ===== src/Time/Rule/Accepted.antt =====
-- What holds of every rule that `chaos_time_config_parse_line` accepts.
use mathlib.Core.Path.{subst}
use macstab_chaos_testing_li.Prelude.{
  ℕ, ◌≡◌, sym, ap, ◌∙◌, true, ◌||◌, Option, none, some, [], ◌∷◌, arith, Bytes, ◌==◌, length,
  Bool-cases, Option-cases, inl, inr,
}
use macstab_chaos_testing_li.Common.Policy.Probability.{IsProbability}
use macstab_chaos_testing_li.Common.Libc.{Libc}
use macstab_chaos_testing_li.Common.RuleLine.{trim, strip_comment, lookup_name}
use macstab_chaos_testing_li.Common.RuleFile.{parsed_rule}
use macstab_chaos_testing_li.Time.Selector.{Clock, selector_parse}
use macstab_chaos_testing_li.Time.Rule.{
  Errno, Rule, effect_allowed, as_parsed, effect_names, parse_fields, fields_rule, text_rule,
  parse_line, split_rule_fields,
}
use macstab_chaos_testing_li.Time.Rule.Effects.{HasParameter, effect_rule-Effected}

module _ (libc : Libc) (clock_number : Clock → ℕ) (errno_number : Errno → ℕ) where
  -- A rule that the wrappers can apply.
  pub record IsRule (r : Rule) : Type 0 where
    pub stated : (text : Bytes) × (selector_parse libc clock_number text ≡ some r.selector)
    pub probable : IsProbability r.probability
    pub permitted : effect_allowed r.selector r.effect ≡ true
    pub parameter : HasParameter libc clock_number errno_number r.effect r

  parse_fields-IsRule :
      (selector effect value : Bytes) {r : Rule}
      → parse_fields libc clock_number errno_number selector effect value ≡ some r
      → IsRule r
  unfolding parse_fields
  parse_fields-IsRule selector effect value h =
      elim (Bool-cases (length selector == 0 || length effect == 0 || length value == 0)) [
        | inl bad ↦ absurd (ground (arith, rw (bad, parse_fields) at h))
        | inr filled ↦ elim (Option-cases (selector_parse libc clock_number selector)) [
          | inl missed ↦ absurd (ground (arith, rw (filled, missed, parse_fields) at h))
          | inr (s, e) ↦ elim (Option-cases (lookup_name effect_names effect)) [
            | inl missed ↦ absurd (ground (arith, rw (filled, e, missed, parse_fields) at h))
            | inr (f, named) ↦
                let w =
                  effect_rule-Effected libc clock_number errno_number s f value
                    (rw (filled, e, named, parse_fields) at h) in
                record {
                  stated = (selector, e ∙ ap some (sym w.same_selector));
                  probable = w.probable;
                  permitted = rw w.same_selector w.permitted;
                  parameter = w.parameter;
                }
          ]
        ]
      ]

  fields_rule-IsRule :
      (o : Option (Bytes × Bytes × Bytes)) {r : Rule}
      → as_parsed (fields_rule libc clock_number errno_number o) ≡ parsed_rule r
      → IsRule r
  unfolding fields_rule as_parsed
  fields_rule-IsRule none h = cc
  fields_rule-IsRule (some (selector, effect, value)) {r = r} h =
      elim (Option-cases (parse_fields libc clock_number errno_number selector effect value)) [
        | inl missed ↦ absurd (ground (arith, rw (missed, as_parsed) at h))
        | inr (q, e) ↦
            let h' : parsed_rule q ≡ parsed_rule r = rw (e, as_parsed) at h in
            let same : q ≡ r = cc in subst IsRule same (parse_fields-IsRule selector effect value e)
      ]

  text_rule-IsRule :
      (text : Bytes) {r : Rule}
      → text_rule libc clock_number errno_number text ≡ parsed_rule r
      → IsRule r
  unfolding text_rule
  text_rule-IsRule [] h = cc
  text_rule-IsRule (c ∷ s) h = fields_rule-IsRule (split_rule_fields (c ∷ s)) h

  -- Whatever the C library returns, a rule that `chaos_time_config_parse_line` accepts has a selector
  -- that its parser reads, a probability from 0 to 1, an effect that the selector permits, and what
  -- the effect needs: an error, a latency of 32 bits, or an offset of at most a hundred years; a
  -- REGRESS rule names a clock and steps back by a positive time.
  pub parse_time_line-IsRule :
      (line : Bytes) {r : Rule}
      → parse_line libc clock_number errno_number line ≡ parsed_rule r
      → IsRule r
  unfolding parse_line
  parse_time_line-IsRule line h = text_rule-IsRule (trim (strip_comment line)) h
