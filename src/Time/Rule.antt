-- ===== src/Time/Rule.antt =====
-- src/time/chaos_time_config.h and src/time/chaos_time_config.c: one rule and the line that states it.
-- <errno.h> chooses the numbers of the named errors.
pub mod Effects
pub mod Accepted
use macstab_chaos_testing_li.Prelude.{
  ℕ, ℤ, pos, magnitude, is_positive, Bool, true, false, not, ◌&&◌, ◌||◌, Option, none, some, List,
  [], ◌∷◌, Bytes, codes, bytes_eq, ◌==◌, ltb, leb, if◌then◌else◌, length,
}
use macstab_chaos_testing_li.Common.Policy.Word.{Policy, no_policy}
use macstab_chaos_testing_li.Common.Policy.Probability.{Ratio, parse_probability}
use macstab_chaos_testing_li.Common.Libc.{Libc, split_first, split_last}
use macstab_chaos_testing_li.Common.RuleLine.{
  trim, strip_comment, lookup_name, with_option, parse_latency,
}
use macstab_chaos_testing_li.Common.RuleFile.{Parsed, blank, parsed_rule, broken}
use macstab_chaos_testing_li.Time.Selector.{
  Operation, clock_gettime, Kind, any, operation, clock, Clock, Selector, targets, selector_parse,
}

-- `chaos_time_effect_t`, less CHAOS_TIME_EFFECT_INVALID
pub data Effect : Type 0 where
  errno latency offset regress : Effect

-- the errors that a rule can name
pub data Errno : Type 0 where
  einval efault eintr eperm enosys eagain : Errno

-- `chaos_time_rule_t`; `hit` is the number of the slot in the pool, `none` is NULL.
pub record Rule : Type 0 where
  pub selector : Selector
  pub effect : Effect
  pub errnum : ℕ
  pub probability : Ratio
  pub latency_ms : ℕ
  pub offset_ms : ℤ
  pub policy : Policy
  pub call_size : ℕ
  pub hit : Option ℕ
  pub hit_generation : ℕ

-- `CHAOS_TIME_MAX_VALUE` and `CHAOS_TIME_MAX_OFFSET_MS`
abbrev pub max_value : ℕ
max_value = 256

abbrev pub max_offset_ms : ℕ
max_offset_ms = 3155760000000

abbrev pub errno_names : List (Bytes × Errno)
errno_names =
    (codes "EINVAL", einval)
    ∷ (codes "EFAULT", efault)
    ∷ (codes "EINTR", eintr)
    ∷ (codes "EPERM", eperm)
    ∷ (codes "ENOSYS", enosys)
    ∷ (codes "EAGAIN", eagain)
    ∷ []

-- a selector that reads clocks: the second condition of `chaos_time_effect_allowed`
abbrev pub reads_clock : Kind → Option Operation → Bool
reads_clock any target = false
reads_clock _ target = targets target clock_gettime

-- `chaos_time_effect_allowed`
unfoldable pub effect_allowed : Selector → Effect → Bool
effect_allowed s errno = true
effect_allowed s latency = true
effect_allowed s offset = reads_clock s.kind s.target
effect_allowed s regress = reads_clock s.kind s.target

abbrev pub is_clock : Kind → Bool
is_clock clock = true
is_clock _ = false

-- `chaos_time_copy_text_value`, with the size of its target
unfoldable pub copy_text_value : Bytes → ℕ → Option Bytes
copy_text_value text size = if length text == 0 || leb size (length text) then none else some text

-- `chaos_time_parse_payload_probability`: the part before the last `@`, and the probability behind it
unfoldable pub parse_payload_probability : Bytes → Option (Bytes × Ratio)
unfolding copy_text_value split_last
parse_payload_probability text = elim (split_last b'@' text) [
  | none ↦ elim (copy_text_value text max_value) [
    | none ↦ none
    | some payload ↦ some (payload, record { over = 1; under = 1 })
  ]
  | some (payload, probability) ↦
      if length payload == 0 || leb max_value (length payload)
      then none
      else elim (parse_probability probability) [ none ↦ none | some p ↦ some (payload, p) ]
]

-- `chaos_time_split_rule_fields`: the first two colons
unfoldable pub split_rule_fields : Bytes → Option (Bytes × Bytes × Bytes)
unfolding split_first trim
split_rule_fields line = elim (split_first b':' line) [
  | none ↦ none
  | some (selector, rest) ↦ elim (split_first b':' rest) [
    | none ↦ none
    | some (effect, value) ↦ some (trim selector, trim effect, trim value)
  ]
]

-- What `memset` and the selector leave in the rule.
abbrev pub bare_rule : Selector → Rule
bare_rule selector = record {
  selector = selector;
  effect = errno;
  errnum = 0;
  probability = record { over = 0; under = 1 };
  latency_ms = 0;
  offset_ms = pos 0;
  policy = no_policy;
  call_size = 0;
  hit = none;
  hit_generation = 0;
}

-- a value with its probability, of which `fill` makes the rule
unfoldable pub with_payload : Bytes → (Bytes → Ratio → Option Rule) → Option Rule
unfolding parse_payload_probability
with_payload value fill = elim (parse_payload_probability value) [
  | none ↦ none
  | some (payload, p) ↦ fill payload p
]

unfoldable pub as_parsed : Option Rule → Parsed Rule
as_parsed none = broken
as_parsed (some r) = parsed_rule r

-- REGRESS takes a positive step.
unfoldable pub positive_only : Option ℤ → Option ℤ
positive_only none = none
positive_only (some z) = if is_positive z then some z else none

abbrev pub effect_names : List (Bytes × Effect)
effect_names =
    (codes "ERRNO", errno)
    ∷ (codes "LATENCY", latency)
    ∷ (codes "OFFSET", offset)
    ∷ (codes "REGRESS", regress)
    ∷ []

module _ (libc : Libc) (clock_number : Clock → ℕ) (errno_number : Errno → ℕ) where
  -- `chaos_time_parse_errno_name`: a name, or a positive number
  unfoldable pub parse_errno_name : Bytes → Option ℕ
  unfolding lookup_name trim
  parse_errno_name text = elim (lookup_name errno_names text) [
    | some e ↦ some (errno_number e)
    | none ↦
        let (value, rest) = libc.strtol text in
        if length rest == length text
          || not (bytes_eq (trim rest) [])
          || not (is_positive value)
          || ltb 0x7fff_ffff (magnitude value)
        then none
        else some (magnitude value)
  ]

  -- `chaos_time_parse_offset`
  unfoldable pub parse_offset : Bytes → Option ℤ
  unfolding trim
  parse_offset text =
      let (value, rest, out_of_range) = libc.strtoll text in
      if length rest == length text
        || not (bytes_eq (trim rest) [])
        || out_of_range
        || ltb max_offset_ms (magnitude value)
      then none
      else some value

  unfoldable pub keep_errno : Rule → Bytes → Ratio → Option Rule
  unfolding with_option
  keep_errno rule payload p =
      with_option (parse_errno_name payload)
        (λ e. record rule { effect = errno; probability = p; errnum = e })

  unfoldable pub keep_latency : Rule → Bytes → Ratio → Option Rule
  unfolding with_option
  keep_latency rule payload p =
      with_option (parse_latency libc.strtoul payload)
        (λ ms. record rule { effect = latency; probability = p; latency_ms = ms })

  unfoldable pub keep_offset : Rule → Bytes → Ratio → Option Rule
  unfolding with_option
  keep_offset rule payload p =
      with_option (parse_offset payload)
        (λ z. record rule { effect = offset; probability = p; offset_ms = z })

  unfoldable pub keep_regress : Rule → Bytes → Ratio → Option Rule
  unfolding with_option positive_only
  keep_regress rule payload p =
      with_option (positive_only (parse_offset payload))
        (λ z. record rule { effect = regress; probability = p; offset_ms = z })

  -- the branches on the second field, by the effect that it names
  unfoldable pub effect_rule : Effect → Rule → Bytes → Option Rule
  unfolding effect_allowed with_payload keep_errno keep_latency keep_offset keep_regress
  effect_rule errno rule value = with_payload value (keep_errno rule)
  effect_rule latency rule value = with_payload value (keep_latency rule)
  effect_rule offset rule value =
      if effect_allowed rule.selector offset then with_payload value (keep_offset rule) else none
  effect_rule regress rule value =
      if effect_allowed rule.selector regress && is_clock rule.selector.kind
      then with_payload value (keep_regress rule)
      else none

  -- what follows the splitting of the line
  unfoldable pub parse_fields : Bytes → Bytes → Bytes → Option Rule
  unfolding effect_rule lookup_name
  parse_fields selector effect value =
      if length selector == 0 || length effect == 0 || length value == 0
      then none
      else elim (selector_parse libc clock_number selector) [
        | none ↦ none
        | some s ↦ elim (lookup_name effect_names effect) [
          | none ↦ none
          | some f ↦ effect_rule f (bare_rule s) value
        ]
      ]

  unfoldable pub fields_rule : Option (Bytes × Bytes × Bytes) → Option Rule
  unfolding parse_fields
  fields_rule none = none
  fields_rule (some (selector, effect, value)) = parse_fields selector effect value

  unfoldable pub text_rule : Bytes → Parsed Rule
  unfolding fields_rule split_rule_fields as_parsed
  text_rule [] = blank
  text_rule (c ∷ s) = as_parsed (fields_rule (split_rule_fields (c ∷ s)))

  -- `chaos_time_config_parse_line`
  unfoldable pub parse_line : Bytes → Parsed Rule
  unfolding text_rule trim strip_comment
  parse_line line = text_rule (trim (strip_comment line))
