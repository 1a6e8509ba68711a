-- ===== src/Dns/Rule/Effects.antt =====
-- What the branches on the effect of a rule line leave in the rule.
use mathlib.Core.Path.{subst}
use macstab_chaos_testing_li.Prelude.{
  ◌≤◌, ◌<◌, ◌≡◌, refl, sym, true, Option, none, some, arith, Bytes, length, Bool-cases,
  Option-cases, inl, inr,
}
use macstab_chaos_testing_li.Common.Policy.Probability.{
  Ratio, IsProbability, parse_probability, parse_probability-IsProbability,
}
use macstab_chaos_testing_li.Common.Libc.{Libc}
use macstab_chaos_testing_li.Common.RuleLine.{with_option-eq_some, parse_latency, parse_latency_le}
use macstab_chaos_testing_li.Dns.Selector.{Domain, lookup, reverse_lookup, Selector}
use macstab_chaos_testing_li.Dns.Value.{
  max_value, copy_text_value, parse_payload_probability, parse_limit, validate_override_value,
}
use macstab_chaos_testing_li.Dns.Rule.{
  Effect, gai, latency, rewrite, service, override, filter_family, limit, shuffle, GaiError, Rule,
  bare_rule, parse_family_filter, effect_allowed, with_probability, with_payload, keep_text,
  keep_family, keep_latency, keep_override, keep_limit, allowed_only, effect_rule,
}
use macstab_chaos_testing_li.Dns.Value.Sound.{
  copy_text_value_sound, payload-IsProbability, parse_limit_le,
}

-- a text that is there and fits its array
abbrev pub Filled : Bytes → Type 0
Filled text = (0 < length text) × (length text < max_value)

-- The parameter that the effect needs is there and in range.
abbrev pub HasParameter : Libc → Effect → Rule → Type 0
HasParameter libc gai r = (e : GaiError) × (r.gai_error ≡ some e)
HasParameter libc latency r = r.latency_ms ≤ 0xffff_ffff
HasParameter libc rewrite r = Filled r.text
HasParameter libc service r = Filled r.text
HasParameter libc override r = Filled r.text × (validate_override_value libc r.text ≡ true)
HasParameter libc filter_family r = Unit
HasParameter libc limit r = (0 < r.kept) × (r.kept ≤ 0xffff_ffff)
HasParameter libc shuffle r = Unit

-- What the branches on the effect leave of the rule that they are given.
pub record Effected (libc : Libc) (s : Selector) (r : Rule) : Type 0 where
  pub same_selector : r.selector ≡ s
  pub probable : IsProbability r.probability
  pub permitted : effect_allowed s.domain r.effect ≡ true
  pub parameter : HasParameter libc r.effect r

module _ (libc : Libc) (s : Selector) where
  pub with_probability-Effected :
      (f : Effect) (n : Option GaiError) (value : Bytes) {r : Rule}
      → effect_allowed s.domain f ≡ true
      → ((p : Ratio)
          → HasParameter libc f
              (record (bare_rule s) { effect = f; gai_error = n; probability = p }))
      → with_probability (bare_rule s) f n value ≡ some r
      → Effected libc s r
  unfolding with_probability
  with_probability-Effected f n value allowed param h =
      let (pr, e, q) = with_option-eq_some (parse_probability value) _ h in
      rw q (record {
        same_selector = refl;
        probable = parse_probability-IsProbability value e;
        permitted = allowed;
        parameter = param pr;
      })

  -- a payload that `fill` stores
  with_payload-Effected :
      (value : Bytes) (fill : Bytes → Ratio → Option Rule) {r : Rule}
      → ((payload : Bytes) (p : Ratio)
          → IsProbability p
          → fill payload p ≡ some r
          → Effected libc s r)
      → with_payload value fill ≡ some r
      → Effected libc s r
  unfolding with_payload
  with_payload-Effected value fill good h = elim (Option-cases (parse_payload_probability value)) [
    | inl missed ↦ absurd (ground (arith, rw (missed, with_payload) at h))
    | inr ((payload, p), e) ↦
        good payload p (payload-IsProbability value e) (rw (e, with_payload) at h)
  ]

  allowed_only_sound :
      (f : Effect) (o : Option Rule) {r : Rule}
      → allowed_only s f o ≡ some r
      → (effect_allowed s.domain f ≡ true) × (o ≡ some r)
  unfolding allowed_only
  allowed_only_sound f o h = elim (Bool-cases (effect_allowed s.domain f)) [
    | inl yes_it_is ↦ (yes_it_is, rw (yes_it_is, allowed_only) at h)
    | inr bad ↦ absurd (ground (arith, rw (bad, allowed_only) at h))
  ]

  keep_text-Effected :
      (f : Effect) (payload : Bytes) (p : Ratio) {r : Rule}
      → effect_allowed s.domain f ≡ true
      → ((t : Bytes)
          → Filled t
          → payload ≡ t
          → HasParameter libc f (record (bare_rule s) { effect = f; probability = p; text = t }))
      → IsProbability p
      → keep_text (bare_rule s) f payload p ≡ some r
      → Effected libc s r
  unfolding keep_text
  keep_text-Effected f payload p allowed param good h =
      let (t, e, q) = with_option-eq_some (copy_text_value payload max_value) _ h in
      let (same, more, fits) = copy_text_value_sound payload max_value e in
      rw q (record {
        same_selector = refl;
        probable = good;
        permitted = allowed;
        parameter = param t (rw (sym same) (more, fits)) same;
      })

  pub every_domain :
      (f : Effect)
      → effect_allowed reverse_lookup f ≡ true
      → (d : Domain) → effect_allowed d f ≡ true
  unfolding effect_allowed
  every_domain f h lookup = refl
  every_domain f h reverse_lookup = h

  pub effect_rule-Effected :
      (f : Effect) (value : Bytes) {r : Rule}
      → effect_rule libc f (bare_rule s) value ≡ some r
      → Effected libc s r
  unfolding effect_rule effect_allowed keep_latency keep_override keep_family keep_limit
  effect_rule-Effected gai value h = cc
  effect_rule-Effected latency value h =
      with_payload-Effected value (keep_latency libc (bare_rule s))
        (λ payload p good k.
          let (ms, e, q) = with_option-eq_some (parse_latency libc.strtoul payload) _ k in
          rw q (record {
            same_selector = refl;
            probable = good;
            permitted = every_domain latency refl s.domain;
            parameter = parse_latency_le libc.strtoul payload e;
          }))
        h
  effect_rule-Effected rewrite value h =
      with_payload-Effected value (keep_text (bare_rule s) rewrite)
        (λ payload p.
          keep_text-Effected rewrite payload p (every_domain rewrite refl s.domain)
            (λ t filled same. filled))
        h
  effect_rule-Effected service value h =
      with_payload-Effected value (keep_text (bare_rule s) service)
        (λ payload p.
          keep_text-Effected service payload p (every_domain service refl s.domain)
            (λ t filled same. filled))
        h
  effect_rule-Effected override value h =
      let (allowed, h') =
        allowed_only_sound override (with_payload value (keep_override libc (bare_rule s))) h in
      with_payload-Effected value (keep_override libc (bare_rule s))
        (λ payload p good k. elim (Bool-cases (validate_override_value libc payload)) [
          | inr bad ↦ absurd (ground (arith, rw (bad, keep_override) at k))
          | inl valid ↦
              keep_text-Effected override payload p allowed
                (λ t filled same.
                  (filled, subst (λ x. validate_override_value libc x ≡ true) same valid))
                good (rw (valid, keep_override) at k)
        ])
        h'
  effect_rule-Effected filter_family value h =
      let (allowed, h') =
        allowed_only_sound filter_family (with_payload value (keep_family (bare_rule s))) h in
      with_payload-Effected value (keep_family (bare_rule s))
        (λ payload p good k.
          let (f, e, q) = with_option-eq_some (parse_family_filter payload) _ k in
          rw q
            (record { same_selector = refl; probable = good; permitted = allowed; parameter = tt }))
        h'
  effect_rule-Effected limit value h =
      let (allowed, h') =
        allowed_only_sound limit (with_payload value (keep_limit libc (bare_rule s))) h in
      with_payload-Effected value (keep_limit libc (bare_rule s))
        (λ payload p good k.
          let (n, e, q) = with_option-eq_some (parse_limit libc payload) _ k in
          rw q (record {
            same_selector = refl;
            probable = good;
            permitted = allowed;
            parameter = parse_limit_le libc payload e;
          }))
        h'
  effect_rule-Effected shuffle value h =
      let (allowed, h') =
        allowed_only_sound shuffle (with_probability (bare_rule s) shuffle none value) h in
      with_probability-Effected shuffle none value allowed (λ p. tt) h'
