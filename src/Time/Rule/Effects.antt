-- ===== src/Time/Rule/Effects.antt =====
-- What the branches on the effect of a rule line leave in the rule.
use mathlib.Core.Path.{subst}
use macstab_chaos_testing_li.Prelude.{
  ℕ, ℤ, magnitude, is_positive, ◌≤◌, ◌≡◌, refl, Bool, true, ◌&&◌, ◌||◌, Option, none, some, arith,
  Bytes, ◌==◌, ltb, leb, length, Bool-cases, Option-cases, inl, inr, if◌then◌else◌, both_of_and,
}
use macstab_chaos_testing_li.Common.Policy.Probability.{
  Ratio, IsProbability, parse_probability, parse_probability-IsProbability,
}
use macstab_chaos_testing_li.Common.Libc.{Libc, split_last}
use macstab_chaos_testing_li.Common.RuleLine.{with_option-eq_some, parse_latency, parse_latency_le}
use macstab_chaos_testing_li.Time.Selector.{Clock, Selector}
use macstab_chaos_testing_li.Time.Rule.{
  Effect, errno, latency, offset, regress, Errno, Rule, max_value, max_offset_ms, bare_rule,
  effect_allowed, is_clock, copy_text_value, parse_payload_probability, parse_errno_name,
  parse_offset, positive_only, with_payload, keep_errno, keep_latency, keep_offset, keep_regress,
  effect_rule,
}

same_pair :
    (a a' : Bytes) (p p' : Ratio)
    → ◌≡◌ {A = Option (Bytes × Ratio)} (some (a, p)) (some (a', p'))
    → p ≡ p'
same_pair a a' p p' h = cc

payload-IsProbability :
    (text : Bytes) {payload : Bytes} {p : Ratio}
    → parse_payload_probability text ≡ some (payload, p)
    → IsProbability p
unfolding parse_payload_probability
payload-IsProbability text {payload = payload} {p = p} h =
    elim (Option-cases (split_last b'@' text)) [
      | inl plain ↦ elim (Option-cases (copy_text_value text max_value)) [
        | inl missed ↦ absurd (ground (arith, rw (plain, missed, parse_payload_probability) at h))
        | inr (t, e) ↦
            subst IsProbability
              (same_pair t payload (record { over = 1; under = 1 }) p
                (rw (plain, e, parse_payload_probability) at h))
              (omega arith, omega arith)
      ]
      | inr ((front, back), cut) ↦
          elim (Bool-cases (length front == 0 || leb max_value (length front))) [
            | inl bad ↦ absurd (ground (arith, rw (cut, bad, parse_payload_probability) at h))
            | inr fits ↦ elim (Option-cases (parse_probability back)) [
              | inl missed ↦
                  absurd (ground (arith, rw (cut, fits, missed, parse_payload_probability) at h))
              | inr (q, e) ↦
                  subst IsProbability
                    (same_pair front payload q p
                      (rw (cut, fits, e, parse_payload_probability) at h))
                    (parse_probability-IsProbability back e)
            ]
          ]
    ]

positive_only_sound :
    (o : Option ℤ) {z : ℤ} → positive_only o ≡ some z → (o ≡ some z) × (is_positive z ≡ true)
unfolding positive_only
positive_only_sound none h = cc
positive_only_sound (some y) {z = z} h = elim (Bool-cases (is_positive y)) [
  | inr bad ↦ absurd (ground (arith, rw (bad, positive_only) at h))
  | inl good ↦
      let h' : some y ≡ some z = rw (good, positive_only) at h in
      let same : y ≡ z = cc in (h', subst (λ x. is_positive x ≡ true) same good)
]

-- what the last test of `chaos_time_parse_offset` leaves
in_bounds :
    (bad : Bool) (z : ℤ) {y : ℤ}
    → (if bad || ltb max_offset_ms (magnitude z) then none else some z) ≡ some y
    → magnitude y ≤ max_offset_ms
in_bounds bad z {y = y} h = elim (Bool-cases (bad || ltb max_offset_ms (magnitude z))) [
  | inl out ↦ absurd (ground (arith, rw out at h))
  | inr fits ↦
      let h' : some z ≡ some y = rw fits at h in
      let same : z ≡ y = cc in subst (λ x. magnitude x ≤ max_offset_ms) same (ground arith)
]

module _ (libc : Libc) (clock_number : Clock → ℕ) (errno_number : Errno → ℕ) where
  parse_offset_le :
      (text : Bytes) {z : ℤ}
      → parse_offset libc clock_number errno_number text ≡ some z
      → magnitude z ≤ max_offset_ms
  unfolding parse_offset
  parse_offset_le text h =
      let (value, rest, out_of_range) = libc.strtoll text in in_bounds _ value h

  -- The parameter that the effect needs is there and in range.
  abbrev pub HasParameter : Effect → Rule → Type 0
  HasParameter errno r =
      (text : Bytes) × (parse_errno_name libc clock_number errno_number text ≡ some r.errnum)
  HasParameter latency r = r.latency_ms ≤ 0xffff_ffff
  HasParameter offset r = magnitude r.offset_ms ≤ max_offset_ms
  HasParameter regress r =
      (magnitude r.offset_ms ≤ max_offset_ms)
      × (is_positive r.offset_ms ≡ true)
      × (is_clock r.selector.kind ≡ true)

  -- What the branches on the effect leave of the rule that they are given.
  pub record Effected (s : Selector) (r : Rule) : Type 0 where
    pub same_selector : r.selector ≡ s
    pub probable : IsProbability r.probability
    pub permitted : effect_allowed s r.effect ≡ true
    pub parameter : HasParameter r.effect r

  module _ (s : Selector) where
    with_payload-Effected :
        (value : Bytes) (fill : Bytes → Ratio → Option Rule) {r : Rule}
        → ((payload : Bytes) (p : Ratio) → IsProbability p → fill payload p ≡ some r → Effected s r)
        → with_payload value fill ≡ some r
        → Effected s r
    unfolding with_payload
    with_payload-Effected value fill good h =
        elim (Option-cases (parse_payload_probability value)) [
          | inl missed ↦ absurd (ground (arith, rw (missed, with_payload) at h))
          | inr ((payload, p), e) ↦
              good payload p (payload-IsProbability value e) (rw (e, with_payload) at h)
        ]

    pub effect_rule-Effected :
        (f : Effect) (value : Bytes) {r : Rule}
        → effect_rule libc clock_number errno_number f (bare_rule s) value ≡ some r
        → Effected s r
    unfolding effect_rule effect_allowed keep_errno keep_latency keep_offset keep_regress
    effect_rule-Effected errno value h =
        with_payload-Effected value (keep_errno libc clock_number errno_number (bare_rule s))
          (λ payload p good k.
            let (n, e, q) =
              with_option-eq_some (parse_errno_name libc clock_number errno_number payload) _ k in
            rw q (record {
              same_selector = refl;
              probable = good;
              permitted = refl;
              parameter = (payload, e);
            }))
          h
    effect_rule-Effected latency value h =
        with_payload-Effected value (keep_latency libc clock_number errno_number (bare_rule s))
          (λ payload p good k.
            let (ms, e, q) = with_option-eq_some (parse_latency libc.strtoul payload) _ k in
            rw q (record {
              same_selector = refl;
              probable = good;
              permitted = refl;
              parameter = parse_latency_le libc.strtoul payload e;
            }))
          h
    effect_rule-Effected offset value h = elim (Bool-cases (effect_allowed s offset)) [
      | inr bad ↦ absurd (ground (arith, rw (bad, effect_rule) at h))
      | inl fits ↦
          with_payload-Effected value (keep_offset libc clock_number errno_number (bare_rule s))
            (λ payload p good k.
              let (z, e, q) =
                with_option-eq_some (parse_offset libc clock_number errno_number payload) _ k in
              rw q (record {
                same_selector = refl;
                probable = good;
                permitted = fits;
                parameter = parse_offset_le payload e;
              }))
            (rw (fits, effect_rule) at h)
    ]
    effect_rule-Effected regress value h =
        elim (Bool-cases (effect_allowed s regress && is_clock s.kind)) [
          | inr bad ↦ absurd (ground (arith, rw (bad, effect_rule) at h))
          | inl fits ↦
              with_payload-Effected value
                (keep_regress libc clock_number errno_number (bare_rule s))
                (λ payload p good k.
                  let (z, e, q) =
                    with_option-eq_some
                      (positive_only (parse_offset libc clock_number errno_number payload)) _ k in
                  let (e', more) =
                    positive_only_sound (parse_offset libc clock_number errno_number payload) e in
                  let both = both_of_and (effect_allowed s regress) (is_clock s.kind) fits in
                  rw q (record {
                    same_selector = refl;
                    probable = good;
                    permitted = both.0;
                    parameter = (parse_offset_le payload e', more, both.1);
                  }))
                (rw (fits, effect_rule) at h)
        ]
