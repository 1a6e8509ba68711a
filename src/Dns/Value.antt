-- ===== src/Dns/Value.antt =====
-- src/dns/chaos_dns_config.c: the last field of a rule line.
pub mod Sound
use macstab_chaos_testing_li.Prelude.{
  ℕ, ◌-◌, Bool, true, false, not, ◌&&◌, ◌||◌, Option, none, some, List, [], ◌∷◌, Bytes, codes,
  bytes_eq, ◌==◌, ltb, leb, if◌then◌else◌, length, take, drop,
}
use macstab_chaos_testing_li.Common.Policy.Probability.{Ratio, parse_probability}
use macstab_chaos_testing_li.Common.Libc.{Libc, split_last}
use macstab_chaos_testing_li.Common.RuleLine.{trim}
use macstab_chaos_testing_li.Common.RuleFile.{push_byte}
use macstab_chaos_testing_li.Dns.Selector.{byte_at}

-- `CHAOS_DNS_MAX_VALUE`
abbrev pub max_value : ℕ
max_value = 512

-- `chaos_dns_copy_text_value`, with the size of its target
unfoldable pub copy_text_value : Bytes → ℕ → Option Bytes
copy_text_value text size = if length text == 0 || leb size (length text) then none else some text

unfoldable pub with_text : Option Bytes → Option Bytes → Option (Bytes × Ratio)
with_text none probability = none
with_text (some payload) none = none
with_text (some payload) (some text) = elim (parse_probability text) [
  | none ↦ none
  | some p ↦ some (payload, p)
]

-- `chaos_dns_parse_payload_probability`: the part before the last `@`, and the probability behind it
unfoldable pub parse_payload_probability : Bytes → Option (Bytes × Ratio)
unfolding copy_text_value with_text split_last trim
parse_payload_probability text = elim (split_last b'@' text) [
  | none ↦ elim (copy_text_value text max_value) [
    | none ↦ none
    | some payload ↦ some (payload, record { over = 1; under = 1 })
  ]
  | some (payload, probability) ↦
      if length payload == 0 || leb max_value (length payload)
      then none
      else with_text (copy_text_value (trim payload) max_value) (copy_text_value probability 64)
]

-- the tokens that the loop of `chaos_dns_validate_override_value` cuts off at commas
unfoldable pub tokens : Bytes → List Bytes
unfolding push_byte
tokens [] = []
tokens (c ∷ s) = if c == b',' then [] ∷ tokens s else push_byte c (tokens s)

module _ (libc : Libc) where
  -- `chaos_dns_parse_limit`
  unfoldable pub parse_limit : Bytes → Option ℕ
  unfolding trim
  parse_limit text =
      let (value, rest) = libc.strtoul text in
      if length rest == length text
        || not (bytes_eq (trim rest) [])
        || value == 0
        || ltb 0xffff_ffff value
      then none
      else some value

  -- `chaos_dns_override_token_valid`
  unfoldable pub token_host : Bytes → Bytes
  token_host token =
      let n = length token in
      if byte_at token 0 == b'[' && ltb 2 n && byte_at token (n - 1) == b']'
      then take (n - 2) (drop 1 token)
      else token

  unfoldable pub is_address : Bytes → Bool
  is_address host = elim (libc.inet_pton4 host) [
    | some a ↦ true
    | none ↦ elim (libc.inet_pton6 host) [ some a ↦ true | none ↦ false ]
  ]

  unfoldable pub override_token_valid : Bytes → Bool
  unfolding token_host is_address
  override_token_valid token =
      if length token == 0 || leb 46 (length token) then false else is_address (token_host token)

  unfoldable pub all_valid : List Bytes → Bool
  unfolding override_token_valid trim
  all_valid [] = true
  all_valid (t ∷ ts) = override_token_valid (trim t) && all_valid ts

  -- `chaos_dns_validate_override_value`
  unfoldable pub validate_override_value : Bytes → Bool
  unfolding copy_text_value tokens all_valid
  validate_override_value text = elim (copy_text_value text max_value) [
    | none ↦ false
    | some copy ↦ not (length (tokens copy) == 0) && all_valid (tokens copy)
  ]
