-- ===== src/Net/Rule.antt =====
-- src/net/chaos_net_config.h and src/net/chaos_net_config.c: one rule and the line that states it. An
-- errno value is the name that stands for it, since <errno.h> chooses the number.
pub mod Fields
pub mod Accepted
use macstab_chaos_testing_li.Prelude.{
  ℕ, Bool, true, false, not, ◌&&◌, ◌||◌, Option, none, some, List, [], ◌∷◌, Bytes, codes, bytes_eq,
  ◌==◌, if◌then◌else◌, length,
}
use macstab_chaos_testing_li.Common.Policy.Word.{Policy, no_policy}
use macstab_chaos_testing_li.Common.Policy.Gates.{no_size}
use macstab_chaos_testing_li.Common.Policy.Probability.{Ratio, parse_probability}
use macstab_chaos_testing_li.Common.Libc.{Libc, split_last}
use macstab_chaos_testing_li.Common.RuleLine.{
  trim, strip_comment, lookup_name, with_option, parse_latency,
}
use macstab_chaos_testing_li.Common.RuleFile.{Parsed, blank, parsed_rule, broken}
use macstab_chaos_testing_li.Net.Endpoint.{
  Kind, any, tcp4, tcp6, udp4, udp6, unix, Endpoint, parse_selector,
}

-- `chaos_net_operation_t`, less CHAOS_NET_OP_INVALID
pub data Operation : Type 0 where
  bind listen connect accept socket shutdown poll send recv close : Operation

-- `chaos_net_effect_t`, less CHAOS_NET_EFFECT_INVALID
pub data Effect : Type 0 where
  errno latency corrupt timeout reset trickle dup : Effect

-- The errno values that a rule can name.
pub data Errno : Type 0 where
  econnrefused etimedout econnreset ehostunreach enetunreach eaddrinuse eaddrnotavail eafnosupport
        eprotonosupport epipe enotconn eopnotsupp einval eintr enomem enobufs emfile enfile eagain :
      Errno

-- `chaos_net_rule_t`; `hit` is the number of the slot in the pool, `none` is NULL.
pub record Rule : Type 0 where
  pub selector : Endpoint
  pub operation : Operation
  pub effect : Effect
  pub errnum : Option Errno
  pub probability : Ratio
  pub latency_ms : ℕ
  pub chunk_bytes : ℕ
  pub policy : Policy
  pub call_size : ℕ
  pub hit : Option ℕ
  pub hit_generation : ℕ

abbrev pub operation_names : List (Bytes × Operation)
operation_names =
    (codes "bind", bind)
    ∷ (codes "listen", listen)
    ∷ (codes "connect", connect)
    ∷ (codes "accept", accept)
    ∷ (codes "socket", socket)
    ∷ (codes "shutdown", shutdown)
    ∷ (codes "poll", poll)
    ∷ (codes "send", send)
    ∷ (codes "recv", recv)
    ∷ (codes "close", close)
    ∷ []

-- `chaos_net_parse_operation`
unfoldable pub parse_operation : Bytes → Option Operation
unfolding lookup_name
parse_operation text = lookup_name operation_names text

abbrev pub errno_names : List (Bytes × Errno)
errno_names =
    (codes "ECONNREFUSED", econnrefused)
    ∷ (codes "ETIMEDOUT", etimedout)
    ∷ (codes "ECONNRESET", econnreset)
    ∷ (codes "EHOSTUNREACH", ehostunreach)
    ∷ (codes "ENETUNREACH", enetunreach)
    ∷ (codes "EADDRINUSE", eaddrinuse)
    ∷ (codes "EADDRNOTAVAIL", eaddrnotavail)
    ∷ (codes "EAFNOSUPPORT", eafnosupport)
    ∷ (codes "EPROTONOSUPPORT", eprotonosupport)
    ∷ (codes "EPIPE", epipe)
    ∷ (codes "ENOTCONN", enotconn)
    ∷ (codes "EOPNOTSUPP", eopnotsupp)
    ∷ (codes "EINVAL", einval)
    ∷ (codes "EINTR", eintr)
    ∷ (codes "ENOMEM", enomem)
    ∷ (codes "ENOBUFS", enobufs)
    ∷ (codes "EMFILE", emfile)
    ∷ (codes "ENFILE", enfile)
    ∷ (codes "EAGAIN", eagain)
    ∷ []

-- `chaos_net_parse_errno_name`
unfoldable pub parse_errno_name : Bytes → Option Errno
unfolding lookup_name
parse_errno_name text = lookup_name errno_names text

-- `chaos_net_effect_allowed`; every operation takes a latency and an errno.
unfoldable pub effect_allowed : Operation → Effect → Bool
effect_allowed op latency = true
effect_allowed op errno = true
effect_allowed recv corrupt = true
effect_allowed recv trickle = true
effect_allowed recv dup = true
effect_allowed poll timeout = true
effect_allowed close reset = true
effect_allowed op effect = false

-- the selectors that stand for every address of their kind, before there is one
unfoldable pub socket_selector : Kind → Endpoint → Bool
socket_selector any s = true
socket_selector unix s = bytes_eq s.text (codes "*")
socket_selector k s = s.wildcard_host && s.port == 0

-- `chaos_net_selector_allowed`
unfoldable pub selector_allowed : Operation → Endpoint → Bool
unfolding socket_selector
selector_allowed socket s = socket_selector s.kind s
selector_allowed op s = true

-- `chaos_net_split_rule_fields`: the last three colons, then the fields trimmed
unfoldable pub cut_last : Bytes → Option (Bytes × Bytes × Bytes × Bytes)
unfolding split_last
cut_last line = elim (split_last b':' line) [
  | none ↦ none
  | some (front, value) ↦ elim (split_last b':' front) [
    | none ↦ none
    | some (head, effect) ↦ elim (split_last b':' head) [
      | none ↦ none
      | some (selector, op) ↦ some (selector, op, effect, value)
    ]
  ]
]

unfoldable pub split_rule_fields : Bytes → Option (Bytes × Bytes × Bytes × Bytes)
unfolding cut_last trim
split_rule_fields line = elim (cut_last line) [
  | none ↦ none
  | some (selector, op, effect, value) ↦ some (trim selector, trim op, trim effect, trim value)
]

-- What `memset`, the selector and the operation field leave in the rule.
abbrev pub bare_rule : Endpoint → Operation → Rule
bare_rule selector op = record {
  selector = selector;
  operation = op;
  effect = errno;
  errnum = none;
  probability = record { over = 0; under = 1 };
  latency_ms = 0;
  chunk_bytes = 0;
  policy = no_policy;
  call_size = 0;
  hit = none;
  hit_generation = 0;
}

-- a nonzero count for TRICKLE
unfoldable pub positive_only : Option ℕ → Option ℕ
positive_only none = none
positive_only (some n) = if n == 0 then none else some n

-- the last line: `return chaos_net_effect_allowed(…) ? 1 : -1;`
unfoldable pub allowed_only : Option Rule → Parsed Rule
allowed_only none = broken
allowed_only (some r) = if effect_allowed r.operation r.effect then parsed_rule r else broken

-- the branches on an effect that is no errno: the effect that takes the probability
abbrev pub drawn_names : List (Bytes × Effect)
drawn_names =
    (codes "CORRUPT", corrupt)
    ∷ (codes "TIMEOUT", timeout)
    ∷ (codes "DUP", dup)
    ∷ (codes "RESET", reset)
    ∷ []

unfoldable pub with_probability : Rule → Effect → Option Errno → Bytes → Option Rule
unfolding with_option
with_probability rule effect errnum value =
    with_option (parse_probability value)
      (λ p. record rule { effect = effect; errnum = errnum; probability = p })

module _ (libc : Libc) where
  -- the branches on the third field
  unfoldable pub parse_effect : Rule → Bytes → Bytes → Option Rule
  unfolding with_probability positive_only lookup_name with_option
  parse_effect rule name value = elim (parse_errno_name name) [
    | some e ↦ with_probability rule errno (some e) value
    | none ↦
        if bytes_eq name (codes "LATENCY")
        then with_option (parse_latency libc.strtoul value)
            (λ ms. record rule { effect = latency; latency_ms = ms })
        else if bytes_eq name (codes "TRICKLE")
        then with_option (positive_only (parse_latency libc.strtoul value)) (λ n. record rule {
          effect = trickle;
          probability = record { over = 1; under = 1 };
          chunk_bytes = n;
        })
        else elim (lookup_name drawn_names name) [
          | some effect ↦ with_probability rule effect none value
          | none ↦ none
        ]
  ]

  -- what follows the splitting of the line
  unfoldable pub parse_fields : Bytes → Bytes → Bytes → Bytes → Parsed Rule
  unfolding parse_effect allowed_only
  parse_fields selector op effect value =
      if length selector == 0 || length op == 0 || length effect == 0 || length value == 0
      then broken
      else elim (parse_selector libc selector) [
        | none ↦ broken
        | some s ↦ elim (parse_operation op) [
          | none ↦ broken
          | some o ↦
              if selector_allowed o s
              then allowed_only (parse_effect (bare_rule s o) effect value)
              else broken
        ]
      ]

  unfoldable pub fields_rule : Option (Bytes × Bytes × Bytes × Bytes) → Parsed Rule
  unfolding parse_fields
  fields_rule none = broken
  fields_rule (some (selector, op, effect, value)) = parse_fields selector op effect value

  unfoldable pub text_rule : Bytes → Parsed Rule
  unfolding fields_rule split_rule_fields
  text_rule [] = blank
  text_rule (c ∷ s) = fields_rule (split_rule_fields (c ∷ s))

  -- `chaos_net_config_parse_line`
  unfoldable pub parse_line : Bytes → Parsed Rule
  unfolding text_rule trim strip_comment
  parse_line line = text_rule (trim (strip_comment line))
