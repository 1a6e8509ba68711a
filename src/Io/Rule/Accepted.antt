-- ===== src/Io/Rule/Accepted.antt =====
-- What holds of every rule that `chaos_io_config_parse_line` accepts.
use macstab_chaos_testing_li.Prelude.{
  ℕ, ◌≤◌, ◌<◌, ◌≡◌, ◌≢◌, refl, sym, ◌∙◌, Bool, true, false, ◌||◌, Option, none, some, List, [], ◌∷◌,
  arith, Bytes, codes, bytes_eq, bytes_eq_iff, leb, length, Bool-cases, Option-cases, inl, inr,
}
use macstab_chaos_testing_li.Common.Policy.Probability.{
  Ratio, IsProbability, parse_probability-IsProbability,
}
use macstab_chaos_testing_li.Common.RuleLine.{
  trim, strip_comment, with_option, with_option-eq_some, parse_latency, parse_latency_le,
}
use macstab_chaos_testing_li.Common.RuleFile.{Parsed, blank, parsed_rule}
use macstab_chaos_testing_li.Io.Rule.{
  Operation, Effect, errno, Errno, Rule, parse_errno_name, parse_operation, parse_io_probability,
  bare_rule, parse_effect, allowed_only, effect_allowed, parse_fields, four_fields, as_parsed,
  cut_fields, parse_line,
}

-- The parameter that an effect needs is there and in range.
abbrev pub HasParameter : Effect → Option Errno → Type 0
HasParameter errno n = (e : Errno) × (n ≡ some e)
HasParameter _ n = n ≡ none

-- A rule that the wrappers can apply.
pub record IsRule (r : Rule) : Type 0 where
  pub path_filled : r.path_prefix ≢ []
  pub path_short : length r.path_prefix < 1024
  pub probable : IsProbability r.probability
  pub latency_fits : r.latency_ms ≤ 0xffff_ffff
  pub permitted : effect_allowed r.operation r.effect ≡ true
  pub parameter : HasParameter r.effect r.errnum

-- What the branches on the effect leave of the rule that they are given.
record Effected (r r' : Rule) : Type 0 where
  same_path : r'.path_prefix ≡ r.path_prefix
  probable : IsProbability r'.probability
  latency_fits : r'.latency_ms ≤ 0xffff_ffff
  parameter : HasParameter r'.effect r'.errnum

read-IsProbability : (s : Bytes) {p : Ratio} → parse_io_probability s ≡ some p → IsProbability p
unfolding parse_io_probability
read-IsProbability s h = parse_probability-IsProbability s h

module _ (strtoul : Bytes → ℕ × Bytes) where
  module _ (path : Bytes) (o : Operation) (name parameter : Bytes) where
    abbrev start : Rule
    start = bare_rule path o

    made :
        {A : Type 0} (value : Option A) (f : A → Rule) {r : Rule}
        → with_option value f ≡ some r
        → ((a : A) → value ≡ some a → Effected start (f a))
        → Effected start r
    made value f h good = let (a, e, q) = with_option-eq_some value f h in rw q (good a e)

    half : IsProbability (record { over = 0; under = 1 })
    half = (omega arith, omega arith)

    parse_effect-Effected :
        {r : Rule} → parse_effect strtoul start name parameter ≡ some r → Effected start r
    unfolding parse_effect
    parse_effect-Effected {r} h = elim (Option-cases (parse_errno_name name)) [
      | inr (e, named) ↦
          made (parse_io_probability parameter) _ (rw (named, parse_effect) at h) (λ p k. record {
            same_path = refl;
            probable = read-IsProbability parameter k;
            latency_fits = omega arith;
            parameter = (e, refl);
          })
      | inl other ↦ elim (Bool-cases (bytes_eq name (codes "LATENCY"))) [
        | inl l ↦
            made (parse_latency strtoul parameter) _ (rw (other, l, parse_effect) at h) (λ ms k.
              record {
                same_path = refl;
                probable = half;
                latency_fits = parse_latency_le strtoul parameter k;
                parameter = refl;
              })
        | inr nl ↦ elim (Bool-cases (bytes_eq name (codes "TORN"))) [
          | inl t ↦
              made (parse_io_probability parameter) _ (rw (other, nl, t, parse_effect) at h) (λ p k.
                record {
                  same_path = refl;
                  probable = read-IsProbability parameter k;
                  latency_fits = omega arith;
                  parameter = refl;
                })
          | inr nt ↦ elim (Bool-cases (bytes_eq name (codes "CORRUPT"))) [
            | inl c ↦
                made (parse_io_probability parameter) _ (rw (other, nl, nt, c, parse_effect) at h)
                  (λ p k. record {
                    same_path = refl;
                    probable = read-IsProbability parameter k;
                    latency_fits = omega arith;
                    parameter = refl;
                  })
            | inr nc ↦ absurd (ground (arith, rw (other, nl, nt, nc, parse_effect) at h))
          ]
        ]
      ]
    ]

  allowed_only-eq_some :
      (o : Option Rule) {r : Rule}
      → allowed_only o ≡ some r
      → (o ≡ some r) × (effect_allowed r.operation r.effect ≡ true)
  unfolding allowed_only
  allowed_only-eq_some none h = cc
  allowed_only-eq_some (some r) {r = r'} h =
      elim (Bool-cases (effect_allowed r.operation r.effect)) [
        | inl e ↦
            let q : some r ≡ some r' = rw (e, allowed_only) at h in
            let same : r ≡ r' = cc in (q, rw (sym same) e)
        | inr e ↦ absurd (ground (arith, rw (e, allowed_only) at h))
      ]

  parse_fields-IsRule :
      (path op name parameter : Bytes) {r : Rule}
      → parse_fields strtoul path op name parameter ≡ some r
      → IsRule r
  unfolding parse_fields
  parse_fields-IsRule path op name parameter {r = r} h =
      elim (Bool-cases
        (bytes_eq path [] || bytes_eq op [] || bytes_eq name [] || bytes_eq parameter [])) [
          | inl bad ↦ absurd (ground (arith, rw (bad, parse_fields) at h))
          | inr filled ↦ elim (Bool-cases (leb 1024 (length path))) [
            | inl long ↦ absurd (ground (arith, rw (filled, long, parse_fields) at h))
            | inr short ↦ elim (Option-cases (parse_operation op)) [
              | inl bad ↦ absurd (ground (arith, rw (filled, short, bad, parse_fields) at h))
              | inr (o, known) ↦
                  let (made_it, ok) =
                    allowed_only-eq_some (parse_effect strtoul (bare_rule path o) name parameter)
                      (rw (filled, short, known, parse_fields) at h) in
                  let r' = parse_effect-Effected path o name parameter made_it in
                  record {
                    path_filled = λ e.
                        not_empty path
                          (filled_path path (bytes_eq op []) (bytes_eq name [])
                            (bytes_eq parameter []) filled)
                          (sym r'.same_path ∙ e);
                    path_short = rw r'.same_path (ground arith);
                    probable = r'.probable;
                    latency_fits = r'.latency_fits;
                    permitted = ok;
                    parameter = r'.parameter;
                  }
            ]
          ]
        ]
    where
      filled_path :
          (p : Bytes) (a b c : Bool)
          → (bytes_eq p [] || a || b || c) ≡ false
          → bytes_eq p [] ≡ false
      filled_path p a b c e = ground arith

      not_empty : (p : Bytes) → bytes_eq p [] ≡ false → p ≢ []
      not_empty p e q = ground (arith, bytes_eq_iff p [])

  four_fields-IsRule : (ws : List Bytes) {r : Rule} → four_fields strtoul ws ≡ some r → IsRule r
  unfolding four_fields
  four_fields-IsRule [] h = cc
  four_fields-IsRule (a ∷ []) h = cc
  four_fields-IsRule (a ∷ b ∷ []) h = cc
  four_fields-IsRule (a ∷ b ∷ c ∷ []) h = cc
  four_fields-IsRule (a ∷ b ∷ c ∷ d ∷ []) h =
      parse_fields-IsRule (trim a) (trim b) (trim c) (trim d) h
  four_fields-IsRule (a ∷ b ∷ c ∷ d ∷ e ∷ ws) h = cc

  as_parsed-IsRule :
      (o : Option Rule) {r : Rule}
      → ((q : Rule) → o ≡ some q → IsRule q)
      → as_parsed o ≡ parsed_rule r
      → IsRule r
  unfolding as_parsed
  as_parsed-IsRule none good h = cc
  as_parsed-IsRule (some q) {r = r} good h = let e : q ≡ r = cc in rw (sym e) (good q refl)

  parse_text-IsRule :
      (text : Bytes) {r : Rule}
      → elim text as (λ _. Parsed Rule) [
        | [] ↦ blank
        | c ∷ s ↦ as_parsed (four_fields strtoul (cut_fields 3 (c ∷ s)))
      ]
        ≡ parsed_rule r
      → IsRule r
  parse_text-IsRule [] h = cc
  parse_text-IsRule (c ∷ s) h =
      as_parsed-IsRule (four_fields strtoul (cut_fields 3 (c ∷ s)))
        (λ q. four_fields-IsRule (cut_fields 3 (c ∷ s))) h

  -- Whatever `strtoul` returns, a rule that `chaos_io_config_parse_line` accepts has a path of 1 to
  -- 1023 bytes, a probability from 0 to 1, a latency that fits in 32 bits, an errno exactly if its
  -- effect is one, and an effect that its operation permits.
  pub parse_line-IsRule :
      (line : Bytes) {r : Rule} → parse_line strtoul line ≡ parsed_rule r → IsRule r
  unfolding parse_line
  parse_line-IsRule line h = parse_text-IsRule (trim (strip_comment line)) h
