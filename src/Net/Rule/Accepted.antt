-- ===== src/Net/Rule/Accepted.antt =====
-- What holds of every rule that `chaos_net_config_parse_line` accepts.
use mathlib.Core.Path.{subst}
use macstab_chaos_testing_li.Prelude.{
  ℕ, ◌≤◌, ◌<◌, ◌≡◌, refl, sym, ap, ◌∙◌, true, ◌||◌, Option, none, some, List, [], ◌∷◌, arith, Bytes,
  codes, bytes_eq, All, ◌==◌, length, Bool-cases, Option-cases, inl, inr,
}
use macstab_chaos_testing_li.Common.Policy.Probability.{
  IsProbability, parse_probability, parse_probability-IsProbability,
}
use macstab_chaos_testing_li.Common.Libc.{Libc}
use macstab_chaos_testing_li.Common.RuleLine.{
  trim, strip_comment, lookup_name, with_option-eq_some, parse_latency, parse_latency_le,
}
use macstab_chaos_testing_li.Common.RuleFile.{parsed_rule}
use macstab_chaos_testing_li.Net.Endpoint.{Endpoint, parse_selector}
use macstab_chaos_testing_li.Net.Rule.{
  Operation, Effect, errno, trickle, Errno, Rule, bare_rule, parse_errno_name, parse_operation,
  effect_allowed, selector_allowed, positive_only, allowed_only, drawn_names, with_probability,
  parse_effect, parse_fields, fields_rule, text_rule, parse_line, split_rule_fields,
}

-- The parameters of the effect are there and in range: an errno exactly for an ERRNO rule, and a chunk of
-- at least one byte exactly for TRICKLE.
abbrev pub HasParameters : Effect → Option Errno → ℕ → Type 0
HasParameters errno n chunk = ((e : Errno) × (n ≡ some e)) × (chunk ≡ 0)
HasParameters trickle n chunk = (n ≡ none) × (0 < chunk)
HasParameters _ n chunk = (n ≡ none) × (chunk ≡ 0)

-- What the branches on the effect leave of the rule that they are given.
pub record Effected (s : Endpoint) (op : Operation) (r : Rule) : Type 0 where
  pub same_selector : r.selector ≡ s
  pub same_operation : r.operation ≡ op
  pub probable : IsProbability r.probability
  pub latency_fits : r.latency_ms ≤ 0xffff_ffff
  pub chunk_fits : r.chunk_bytes ≤ 0xffff_ffff
  pub parameters : HasParameters r.effect r.errnum r.chunk_bytes

-- A rule that the wrappers can apply.
pub record IsRule (libc : Libc) (r : Rule) : Type 0 where
  pub stated : (text : Bytes) × (parse_selector libc text ≡ some r.selector)
  pub selectable : selector_allowed r.operation r.selector ≡ true
  pub permitted : effect_allowed r.operation r.effect ≡ true
  pub probable : IsProbability r.probability
  pub latency_fits : r.latency_ms ≤ 0xffff_ffff
  pub chunk_fits : r.chunk_bytes ≤ 0xffff_ffff
  pub parameters : HasParameters r.effect r.errnum r.chunk_bytes

-- Every entry of a table satisfies the predicate, so what is found in it does.
pub lookup_name-All :
    {A : Type 0} (P : A → Type 0) (names : List (Bytes × A)) (text : Bytes) {a : A}
    → All (λ entry. P entry.1) names
    → lookup_name names text ≡ some a
    → P a
unfolding lookup_name
lookup_name-All P [] text h e = cc
lookup_name-All P ((name, b) ∷ names) text {a = a} (p, h) e =
    elim (Bool-cases (bytes_eq text name)) [
      | inl same ↦
          let e' : some b ≡ some a = rw (same, lookup_name) at e in
          let q : b ≡ a = cc in subst P q p
      | inr other ↦ lookup_name-All P names text h (rw (other, lookup_name) at e)
    ]

-- an effect that carries a probability and nothing else
abbrev Drawn : Effect → Type 0
Drawn f = HasParameters f none 0

positive_only_sound : (o : Option ℕ) {n : ℕ} → positive_only o ≡ some n → (o ≡ some n) × (0 < n)
unfolding positive_only
positive_only_sound none h = cc
positive_only_sound (some m) {n = n} h = elim (Bool-cases (m == 0)) [
  | inl zero_count ↦ absurd (ground (arith, rw (zero_count, positive_only) at h))
  | inr more ↦
      let h' : some m ≡ some n = rw (more, positive_only) at h in
      let q : m ≡ n = cc in (h', ground arith)
]

module _ (s : Endpoint) (op : Operation) where
  half : IsProbability (record { over = 0; under = 1 })
  half = (omega arith, omega arith)

  with_probability-Effected :
      (f : Effect) (n : Option Errno) (value : Bytes) {r : Rule}
      → HasParameters f n 0
      → with_probability (bare_rule s op) f n value ≡ some r
      → Effected s op r
  unfolding with_probability
  with_probability-Effected f n value p h =
      let (pr, e, q) = with_option-eq_some (parse_probability value) _ h in
      rw q (record {
        same_selector = refl;
        same_operation = refl;
        probable = parse_probability-IsProbability value e;
        latency_fits = omega arith;
        chunk_fits = omega arith;
        parameters = p;
      })

  module _ (libc : Libc) (name value : Bytes) where
    parse_effect-Effected :
        {r : Rule} → parse_effect libc (bare_rule s op) name value ≡ some r → Effected s op r
    unfolding parse_effect
    parse_effect-Effected h = elim (Option-cases (parse_errno_name name)) [
      | inr (e, named) ↦
          with_probability-Effected errno (some e) value ((e, refl), refl)
            (rw (named, parse_effect) at h)
      | inl other ↦ elim (Bool-cases (bytes_eq name (codes "LATENCY"))) [
        | inl l ↦
            let (ms, e, q) =
              with_option-eq_some (parse_latency libc.strtoul value) _
                (rw (other, l, parse_effect) at h) in
            rw q (record {
              same_selector = refl;
              same_operation = refl;
              probable = half;
              latency_fits = parse_latency_le libc.strtoul value e;
              chunk_fits = omega arith;
              parameters = (refl, refl);
            })
        | inr nl ↦ elim (Bool-cases (bytes_eq name (codes "TRICKLE"))) [
          | inl t ↦
              let (n, e, q) =
                with_option-eq_some (positive_only (parse_latency libc.strtoul value)) _
                  (rw (other, nl, t, parse_effect) at h) in
              let (e', more) = positive_only_sound (parse_latency libc.strtoul value) e in
              rw q (record {
                same_selector = refl;
                same_operation = refl;
                probable = (omega arith, omega arith);
                latency_fits = omega arith;
                chunk_fits = parse_latency_le libc.strtoul value e';
                parameters = (refl, more);
              })
          | inr nt ↦ elim (Option-cases (lookup_name drawn_names name)) [
            | inl missed ↦ absurd (ground (arith, rw (other, nl, nt, missed, parse_effect) at h))
            | inr (f, drawn) ↦
                with_probability-Effected f none value
                  (lookup_name-All Drawn drawn_names name
                    ((refl, refl), ((refl, refl), ((refl, refl), ((refl, refl), tt)))) drawn)
                  (rw (other, nl, nt, drawn, parse_effect) at h)
          ]
        ]
      ]
    ]

allowed_only_sound :
    (o : Option Rule) {r : Rule}
    → allowed_only o ≡ parsed_rule r
    → (o ≡ some r) × (effect_allowed r.operation r.effect ≡ true)
unfolding allowed_only
allowed_only_sound none h = cc
allowed_only_sound (some q) {r = r} h = elim (Bool-cases (effect_allowed q.operation q.effect)) [
  | inl e ↦
      let h' : parsed_rule q ≡ parsed_rule r = rw (e, allowed_only) at h in
      let same : q ≡ r = cc in
      (ap some same, subst (λ x. effect_allowed x.operation x.effect ≡ true) same e)
  | inr e ↦ absurd (ground (arith, rw (e, allowed_only) at h))
]

module _ (libc : Libc) where
  parse_fields-IsRule :
      (selector op effect value : Bytes) {r : Rule}
      → parse_fields libc selector op effect value ≡ parsed_rule r
      → IsRule libc r
  unfolding parse_fields
  parse_fields-IsRule selector op effect value {r = r} h =
      elim (Bool-cases
        (length selector == 0 || length op == 0 || length effect == 0 || length value == 0)) [
          | inl bad ↦ absurd (ground (arith, rw (bad, parse_fields) at h))
          | inr filled ↦ elim (Option-cases (parse_selector libc selector)) [
            | inl missed ↦ absurd (ground (arith, rw (filled, missed, parse_fields) at h))
            | inr (s, e1) ↦ elim (Option-cases (parse_operation op)) [
              | inl missed ↦ absurd (ground (arith, rw (filled, e1, missed, parse_fields) at h))
              | inr (o, e2) ↦ elim (Bool-cases (selector_allowed o s)) [
                | inr bad ↦ absurd (ground (arith, rw (filled, e1, e2, bad, parse_fields) at h))
                | inl fits ↦
                    let (made, permitted) =
                      allowed_only_sound (parse_effect libc (bare_rule s o) effect value)
                        (rw (filled, e1, e2, fits, parse_fields) at h) in
                    let w = parse_effect-Effected s o libc effect value made in
                    record {
                      stated = (selector, e1 ∙ ap some (sym w.same_selector));
                      selectable = rw (w.same_operation, w.same_selector) fits;
                      permitted = permitted;
                      probable = w.probable;
                      latency_fits = w.latency_fits;
                      chunk_fits = w.chunk_fits;
                      parameters = w.parameters;
                    }
              ]
            ]
          ]
        ]

  fields_rule-IsRule :
      (o : Option (Bytes × Bytes × Bytes × Bytes)) {r : Rule}
      → fields_rule libc o ≡ parsed_rule r
      → IsRule libc r
  unfolding fields_rule
  fields_rule-IsRule none h = cc
  fields_rule-IsRule (some (selector, op, effect, value)) h =
      parse_fields-IsRule selector op effect value h

  text_rule-IsRule : (text : Bytes) {r : Rule} → text_rule libc text ≡ parsed_rule r → IsRule libc r
  unfolding text_rule
  text_rule-IsRule [] h = cc
  text_rule-IsRule (c ∷ s) h = fields_rule-IsRule (split_rule_fields (c ∷ s)) h

  -- Whatever the C library returns, a rule that `chaos_net_config_parse_line` accepts has a selector that
  -- its parser reads and that the operation admits, an effect that the operation permits, a
  -- probability from 0 to 1, a latency and a chunk that fit in 32 bits, an errno exactly if its
  -- effect is one, and a chunk of at least a byte exactly if the effect is TRICKLE.
  pub parse_net_line-IsRule :
      (line : Bytes) {r : Rule} → parse_line libc line ≡ parsed_rule r → IsRule libc r
  unfolding parse_line
  parse_net_line-IsRule line h = text_rule-IsRule (trim (strip_comment line)) h
